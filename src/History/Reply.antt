-- ===== src/History/Reply.antt =====
-- The calls of tokenir_ui/src/migration.rs from the start of the client.
use tokenir.Prelude.{
  nat_eq, nat_beq_iff, ℕ, ◌+◌, ◌%◌, ◌^◌, ◌<◌, ◌≤◌, ◌≡◌, refl, sym, ◌∙◌, true, Option, none, some,
  List, [], ◌∷◌, ◌++◌, all, arith, leb, ltb, length, Bool-cases, inl, inr,
}
use tokenir.Prelude.Map.{get, insert, remove, get-insert, get-remove}
use tokenir.Prelude.Text.{Text}
use tokenir.Terminal.{CreatorHistory}
use tokenir.History.{
  Codec, Padre, Step, asks, writes, receives, breaks, times_out, new, finish, get_dev_history,
  reply, on_reply, on_binary, step, run, send, drop_sender, on_sender, route,
}
use tokenir.History.Answer.{
  Waiting, count, quiet, run-Waiting, answer, finish_rest, get-finish_ne, send-Waiting,
}

-- The numbers fit, and nothing is known of calls that were not made.
record Fresh (s : Padre) : Type 0 where
  small : s.next_seq < 2 ^ 32
  unasked : (c : ℕ) → s.asked ≤ c → get c s.results ≡ none
  known : (j c : ℕ) → get j s.pending ≡ some c → c < s.asked

new-Fresh : Fresh new
unfolding new get
new-Fresh = record { small = omega arith; unasked = λ c h. refl; known = λ j c h. ground arith }

finish-Fresh :
    (c : ℕ) (r : Option CreatorHistory) (s : Padre) → c < s.asked → Fresh s → Fresh (finish c r s)
finish-Fresh c r s h w =
    let rest = finish_rest c r s in
    record {
      small = rw rest.2 w.small;
      unasked = λ d k.
          let k' : s.asked ≤ d = omega (arith, k, rest.1) in
          get-finish_ne c d r s (omega arith) ∙ w.unasked d k';
      known = λ j d e. rw rest.1 (w.known j d (rw (sym rest.0) e));
    }

drop_sender-Fresh :
    (j : ℕ) (o : Option ℕ) (s : Padre) → get j s.pending ≡ o → Fresh s → Fresh (drop_sender o s)
drop_sender-Fresh j none s e w = w
drop_sender-Fresh j (some c) s e w = finish-Fresh c none s (w.known j c e) w

drop_sender_asked : (o : Option ℕ) (s : Padre) → (drop_sender o s).asked ≡ s.asked
drop_sender_asked none s = refl
drop_sender_asked (some c) s = (finish_rest c none s).1

send-Fresh : (m : Option (List ℕ)) (s : Padre) → Fresh s → Fresh (send m s)
send-Fresh none s w = w
send-Fresh (some buf) s w = record { small = w.small; unasked = w.unasked; known = w.known }

on_sender-Fresh :
    (j : ℕ) (o : Option ℕ) (r : Option CreatorHistory) (s : Padre)
    → ((c : ℕ) → o ≡ some c → c < s.asked)
    → Fresh s
    → Fresh (on_sender o r s)
on_sender-Fresh j none r s h w = w
on_sender-Fresh j (some c) r s h w = finish-Fresh c r s (h c refl) w

module _ {Value : Type 0} (codec : Codec Value) where
  get_dev_history-Fresh :
      (s : Padre) (dev id : Text) → Fresh s → Fresh (get_dev_history codec dev id s)
  unfolding get_dev_history
  get_dev_history-Fresh s dev id w =
      let n = s.next_seq in
      let d = drop_sender-Fresh n (get n s.pending) s refl w in
      let s' : Padre = record (drop_sender (get n s.pending) s) {
        next_seq = (n + 1) % 2 ^ 32;
        asked = s.asked + 1;
        pending = insert n s.asked s.pending;
      } in
      send-Fresh (codec.encode 8 n (route dev) id) s' (record {
        small = omega arith;
        unasked = λ c h. d.unasked c (omega (arith, h, drop_sender_asked (get n s.pending) s));
        known = λ j c e. ground (arith, get-insert n j s.asked s.pending, w.known j c);
      })

  on_reply-Fresh : (s : Padre) (r : Option (ℕ × Value)) → Fresh s → Fresh (on_reply codec r s)
  on_reply-Fresh s none w = w
  on_reply-Fresh s (some (n, v)) w =
      let s' : Padre = record s { pending = remove n s.pending } in
      on_sender-Fresh n (get n s.pending) (codec.history v) s' (λ c e. w.known n c e)
        (record {
          small = w.small;
          unasked = w.unasked;
          known = λ j c e. ground (arith, get-remove n j s.pending, w.known j c);
        })

  on_binary-Fresh : (s : Padre) (bin : List ℕ) → Fresh s → Fresh (on_binary codec bin s)
  unfolding on_binary
  on_binary-Fresh s bin w = elim (Bool-cases (leb (length bin) 2)) [
    | inl e ↦ rw e (send-Fresh (some bin) s w)
    | inr e ↦ rw e (on_reply-Fresh s (reply codec bin) w)
  ]

  step-Fresh : (s : Padre) (e : Step) → Fresh s → Fresh (step codec e s)
  unfolding step
  step-Fresh s (asks dev id) w = get_dev_history-Fresh s dev id w
  step-Fresh s writes w = record { small = w.small; unasked = w.unasked; known = w.known }
  step-Fresh s (receives bin) w = on_binary-Fresh s bin w
  step-Fresh s breaks w = w
  step-Fresh s (times_out c) w = elim (Bool-cases (ltb c s.asked)) [
    | inl e ↦ rw e (finish-Fresh c none s (ground arith) w)
    | inr e ↦ rw e w
  ]

  run-Fresh : (s : Padre) (es : List Step) → Fresh s → Fresh (run codec es s)
  unfolding run
  run-Fresh s [] w = w
  run-Fresh s (e ∷ es) w = run-Fresh (step codec e s) es (step-Fresh s e w)

  run-append :
      (s : Padre) (es fs : List Step) → run codec (es ++ fs) s ≡ run codec fs (run codec es s)
  unfolding run
  run-append s [] fs = refl
  run-append s (e ∷ es) fs = run-append (step codec e s) es fs

  get_dev_history-Waiting :
      (s : Padre) (dev id : Text)
      → Fresh s
      → Waiting s.asked s.next_seq 0 (get_dev_history codec dev id s)
  unfolding get_dev_history
  get_dev_history-Waiting s dev id w =
      let n = s.next_seq in
      let d = drop_sender-Fresh n (get n s.pending) s refl w in
      let s' : Padre = record (drop_sender (get n s.pending) s) {
        next_seq = (n + 1) % 2 ^ 32;
        asked = s.asked + 1;
        pending = insert n s.asked s.pending;
      } in
      let w' : Waiting s.asked n 0 s' = record {
        small = w.small;
        here = ground (arith, get-insert n n s.asked s.pending, nat_beq_iff n n);
        only = λ j e.
            ground (arith, get-insert n j s.asked s.pending, w.known j s.asked, nat_beq_iff n j);
        open_call = d.unasked s.asked (omega (arith, drop_sender_asked (get n s.pending) s));
        old = omega arith;
        next = omega arith;
      } in
      send-Waiting s.asked n 0 s' w' (codec.encode 8 n (route dev) id)

  answered_from :
      (s : Padre) (during : List Step) (dev id : Text) (bin : List ℕ) (v : Value)
      (h : CreatorHistory)
      → Fresh s
      → all (quiet codec s.asked s.next_seq) during ≡ true
      → count during + 1 < 2 ^ 32
      → reply codec bin ≡ some (s.next_seq, v)
      → codec.history v ≡ some h
      → get s.asked (run codec (asks dev id ∷ (during ++ (receives bin ∷ []))) s).results
        ≡ some (some h)
  unfolding run step
  answered_from s during dev id bin v h w q small r p =
      let s' = get_dev_history codec dev id s in
      let w' = get_dev_history-Waiting s dev id w in
      rw (run-append s' during (receives bin ∷ [])) (
        answer codec s.asked s.next_seq (0 + count during) (run codec during s') bin v h
          (run-Waiting codec s.asked s.next_seq 0 s' during q (omega arith) w') r p)

  -- A call is answered, whatever came before it: where neither a reply with its number nor its timeout
  -- comes first, and it is followed by fewer than 2 ^ 32 - 1 calls, the first reply with its number that
  -- holds a history gives it that history.
  pub answered :
      (before during : List Step) (dev id : Text) (bin : List ℕ) (v : Value) (h : CreatorHistory)
      → let s = run codec before new in
        all (quiet codec s.asked s.next_seq) during ≡ true
        → count during + 1 < 2 ^ 32
        → reply codec bin ≡ some (s.next_seq, v)
        → codec.history v ≡ some h
        → get s.asked
            (run codec (before ++ (asks dev id ∷ (during ++ (receives bin ∷ [])))) new).results
          ≡ some (some h)
  answered before during dev id bin v h q small r p =
      let s = run codec before new in
      rw (run-append new before (asks dev id ∷ (during ++ (receives bin ∷ []))))
        (answered_from s during dev id bin v h (run-Fresh new before new-Fresh) q small r p)
