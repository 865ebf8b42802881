-- ===== src/History/Answer.antt =====
-- That the client of tokenir_ui/src/migration.rs answers the call that a reply is for.
use tokenir.Prelude.{
  nat_eq, nat_beq_iff, ℕ, suc, ◌+◌, ◌%◌, ◌^◌, ◌<◌, ◌≡◌, ◌≢◌, refl, Bool, true, false, not, Option,
  none, some, List, [], ◌∷◌, all, arith, sym, ap, subst, Bool-cases, leb, ltb, length,
  if◌then◌else◌, ◌∙◌, nat_beq, inl, inr,
}
use tokenir.Prelude.Map.{get, insert, remove, get-insert, get-remove}
use tokenir.Prelude.Text.{Text}
use tokenir.Terminal.{CreatorHistory}
use tokenir.History.{
  Codec, Padre, Step, asks, writes, receives, breaks, times_out, finish, get_dev_history, reply,
  on_reply, on_binary, step, run, send, route, drop_sender, on_sender,
}

-- The call waits under its number, which `k` calls after it have not taken.
pub record Waiting (caller seq k : ℕ) (s : Padre) : Type 0 where
  pub small : seq < 2 ^ 32
  pub here : get seq s.pending ≡ some caller
  pub only : (j : ℕ) → get j s.pending ≡ some caller → j ≡ seq
  pub open_call : get caller s.results ≡ none
  pub old : caller < s.asked
  pub next : s.next_seq ≡ (seq + 1 + k) % 2 ^ 32

-- The calls that a step makes.
abbrev pub calls_in : Step → ℕ
calls_in (asks dev id) = 1
calls_in _ = 0

abbrev pub count : List Step → ℕ
count [] = 0
count (e ∷ es) = calls_in e + count es

pub finish_rest :
    (c : ℕ) (r : Option CreatorHistory) (s : Padre)
    → ((finish c r s).pending ≡ s.pending)
      × ((finish c r s).asked ≡ s.asked)
      × ((finish c r s).next_seq ≡ s.next_seq)
unfolding finish
finish_rest c r s = ground arith

pub get-finish_ne :
    (c d : ℕ) (r : Option CreatorHistory) (s : Padre)
    → c ≢ d
    → get d (finish c r s).results ≡ get d s.results
unfolding finish
get-finish_ne c d r s h = ground (arith, get-insert c d r s.results)

get-finish :
    (c : ℕ) (r : Option CreatorHistory) (s : Padre)
    → get c s.results ≡ none
    → get c (finish c r s).results ≡ some r
unfolding finish
get-finish c r s h = ground (arith, get-insert c c r s.results)

module _ (caller seq k : ℕ) (s : Padre) (w : Waiting caller seq k s) where
  finish-Waiting :
      (c : ℕ) (r : Option CreatorHistory) → c ≢ caller → Waiting caller seq k (finish c r s)
  finish-Waiting c r h =
      let rest = finish_rest c r s in
      record {
        small = w.small;
        here = rw rest.0 w.here;
        only = λ j e. w.only j (rw (sym rest.0) e);
        open_call = get-finish_ne c caller r s h ∙ w.open_call;
        old = rw rest.1 w.old;
        next = rest.2 ∙ w.next;
      }

  drop_sender-Waiting :
      (j : ℕ) (o : Option ℕ)
      → j ≢ seq
      → get j s.pending ≡ o
      → Waiting caller seq k (drop_sender o s)
  drop_sender-Waiting j none h e = w
  drop_sender-Waiting j (some c) h e = finish-Waiting c none (λ p. h (w.only j (e ∙ ap some p)))

  pub send-Waiting : (m : Option (List ℕ)) → Waiting caller seq k (send m s)
  send-Waiting none = w
  send-Waiting (some buf) = record {
    small = w.small;
    here = w.here;
    only = w.only;
    open_call = w.open_call;
    old = w.old;
    next = w.next;
  }

module _ {Value : Type 0} (codec : Codec Value) (caller seq : ℕ) where
  -- Neither a reply with the number nor the end of the caller's patience.
  abbrev is_number : Option (ℕ × Value) → Bool
  is_number none = false
  is_number (some (n, v)) = nat_beq n seq

  abbrev pub quiet : Step → Bool
  quiet (receives bin) = not (is_number (reply codec bin))
  quiet (times_out c) = not (nat_beq c caller)
  quiet _ = true

  differs : (k n : ℕ) → seq < 2 ^ 32 → n ≡ (seq + 1 + k) % 2 ^ 32 → suc k < 2 ^ 32 → n ≢ seq
  differs k n h e small p = omega arith

  pub asked-Waiting :
      (k : ℕ) (s : Padre) (dev id : Text)
      → Waiting caller seq k s
      → suc k < 2 ^ 32
      → Waiting caller seq (suc k) (get_dev_history codec dev id s)
  unfolding get_dev_history
  asked-Waiting k s dev id w h =
      let n = s.next_seq in
      let other : n ≢ seq = differs k n w.small w.next h in
      let d = drop_sender-Waiting caller seq k s w n (get n s.pending) other refl in
      let s' : Padre = record (drop_sender (get n s.pending) s) {
        next_seq = (n + 1) % 2 ^ 32;
        asked = s.asked + 1;
        pending = insert n s.asked s.pending;
      } in
      send-Waiting caller seq (suc k) s'
        (record {
          small = w.small;
          here = ground (arith, get-insert n seq s.asked s.pending, w.here, nat_beq_iff n seq);
          only = λ j e.
              ground (arith, get-insert n j s.asked s.pending, w.only j, w.old, nat_beq_iff n j);
          open_call = d.open_call;
          old = omega (arith, w.old);
          next = omega (arith, w.next);
        })
        (codec.encode 8 n (route dev) id)

  found-Waiting :
      (k : ℕ) (s s' : Padre) (n : ℕ) (r : Option CreatorHistory) (o : Option ℕ)
      → get n s.pending ≡ o
      → n ≢ seq
      → Waiting caller seq k s
      → Waiting caller seq k s'
      → Waiting caller seq k (on_sender o r s')
  found-Waiting k s s' n r none e other w w' = w'
  found-Waiting k s s' n r (some c) e other w w' =
      finish-Waiting caller seq k s' w' c r (λ p. other (w.only n (e ∙ ap some p)))

  on_reply-Waiting :
      (k : ℕ) (s : Padre) (r : Option (ℕ × Value))
      → is_number r ≡ false
      → Waiting caller seq k s
      → Waiting caller seq k (on_reply codec r s)
  on_reply-Waiting k s none h w = w
  on_reply-Waiting k s (some (n, v)) h w =
      let other : n ≢ seq = ground (arith, nat_beq_iff n seq) in
      let s' = record s { pending = remove n s.pending } in
      let w' : Waiting caller seq k s' = record {
        small = w.small;
        here = ground (arith, get-remove n seq s.pending, w.here, nat_beq_iff n seq);
        only = λ j e. ground (arith, get-remove n j s.pending, w.only j, nat_beq_iff n j);
        open_call = w.open_call;
        old = w.old;
        next = w.next;
      } in
      found-Waiting k s s' n (codec.history v) (get n s.pending) refl other w w'

  not_number : (r : Option (ℕ × Value)) → not (is_number r) ≡ true → is_number r ≡ false
  not_number r h = ground arith

  on_binary-Waiting :
      (k : ℕ) (s : Padre) (bin : List ℕ)
      → quiet (receives bin) ≡ true
      → Waiting caller seq k s
      → Waiting caller seq k (on_binary codec bin s)
  unfolding on_binary
  on_binary-Waiting k s bin q w = elim (Bool-cases (leb (length bin) 2)) [
    | inl e ↦ rw e (send-Waiting caller seq k s w (some bin))
    | inr e ↦ rw e (on_reply-Waiting k s (reply codec bin) (not_number (reply codec bin) q) w)
  ]

  times_out-Waiting :
      (k : ℕ) (s : Padre) (c : ℕ) (b : Bool)
      → quiet (times_out c) ≡ true
      → Waiting caller seq k s
      → Waiting caller seq k (if b then finish c none s else s)
  times_out-Waiting k s c true q w =
      finish-Waiting caller seq k s w c none (ground (arith, nat_beq_iff c caller))
  times_out-Waiting k s c false q w = w

  step-Waiting :
      (k : ℕ) (s : Padre) (e : Step)
      → quiet e ≡ true
      → suc (k + calls_in e) < 2 ^ 32
      → Waiting caller seq k s
      → Waiting caller seq (k + calls_in e) (step codec e s)
  unfolding step
  step-Waiting k s (asks dev id) q h w =
      subst (λ n. Waiting caller seq n (get_dev_history codec dev id s)) (omega arith)
        (asked-Waiting k s dev id w (omega arith))
  step-Waiting k s writes q h w =
      subst (λ n. Waiting caller seq n (step codec writes s)) (omega arith)
        (record {
          small = w.small;
          here = w.here;
          only = w.only;
          open_call = w.open_call;
          old = w.old;
          next = w.next;
        })
  step-Waiting k s (receives bin) q h w =
      subst (λ n. Waiting caller seq n (on_binary codec bin s)) (omega arith)
        (on_binary-Waiting k s bin q w)
  step-Waiting k s breaks q h w = subst (λ n. Waiting caller seq n s) (omega arith) w
  step-Waiting k s (times_out c) q h w =
      subst (λ n. Waiting caller seq n (step codec (times_out c) s)) (omega arith)
        (times_out-Waiting k s c (ltb c s.asked) q w)

  pub run-Waiting :
      (k : ℕ) (s : Padre) (es : List Step)
      → all quiet es ≡ true
      → suc (k + count es) < 2 ^ 32
      → Waiting caller seq k s
      → Waiting caller seq (k + count es) (run codec es s)
  unfolding run
  run-Waiting k s [] q h w = subst (λ n. Waiting caller seq n s) (omega arith) w
  run-Waiting k s (e ∷ es) q h w =
      let first = step-Waiting k s e (ground (arith, q)) (omega (arith, h)) w in
      subst (λ n. Waiting caller seq n (run codec es (step codec e s))) (omega arith)
        (run-Waiting (k + calls_in e) (step codec e s) es (ground (arith, q)) (omega (arith, h))
          first)

  long : (bin : List ℕ) (v : Value) → reply codec bin ≡ some (seq, v) → leb (length bin) 2 ≡ false
  unfolding reply
  long bin v h = ground arith

  pub answer :
      (k : ℕ) (s : Padre) (bin : List ℕ) (v : Value) (h : CreatorHistory)
      → Waiting caller seq k s
      → reply codec bin ≡ some (seq, v)
      → codec.history v ≡ some h
      → get caller (step codec (receives bin) s).results ≡ some (some h)
  unfolding step on_binary
  answer k s bin v h w r p = rw (long bin v r) (
      rw r (
        rw w.here (
          rw p (
            get-finish caller (some h) (record s { pending = remove seq s.pending }) w.open_call))))
