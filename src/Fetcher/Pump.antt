-- ===== src/Fetcher/Pump.antt =====
-- `subscribe_to_pump` of tokenir/src/fetcher.rs: a task for each program's logs, with a callback each over
-- one state. A task's loop never returns, so a panic of the callback is what ends it: its own handle is
-- then ready, `select!` takes it and `subscribe_to_pump` returns. The other handle is dropped, which
-- detaches its task and does not stop it. A call of the callback is one step.
use tokenir.Prelude.{
  ℕ, zero, suc, ◌≡◌, refl, sym, ap, ◌∙◌, Bool, true, false, ◌||◌, Option, none, some, List, [], ◌∷◌,
  ◌++◌, all, take, arith, append-nil, append_assoc,
}
use tokenir.Events.{Event}
use tokenir.Fetcher.Stream.{Output, calls, pongs}

pub data Program : Type 0 where
  pump amm : Program

-- What the streams will still bring, the state of the callback, whether `subscribe_to_pump` returned,
-- and what each callback was given.
pub record Tasks (S : Type 0) : Type 0 where
  pub pump_rest : List Output
  pub amm_rest : List Output
  pub state : S
  pub returned : Bool
  pub pump_seen : List Output
  pub amm_seen : List Output

module _ {S : Type 0} (on_call : ℕ → Event → S → Option S) where
  -- The next step of one task: what is left of its stream, the state, and whether the task ended.
  abbrev after_call : List Output → Option S → S → List Output × S × Bool
  after_call rest none s = ([], s, true)
  after_call rest (some s') s = (rest, s', false)

  abbrev pub turn : List Output → S → List Output × S × Bool
  turn [] s = ([], s, false)
  turn (pongs payload ∷ rest) s = (rest, s, false)
  turn (calls now event ∷ rest) s = after_call rest (on_call now event s) s

  unfoldable pub step : Program → Tasks S → Tasks S
  step pump t =
      let (rest, s, ended) = turn t.pump_rest t.state in
      record t {
        pump_rest = rest;
        state = s;
        returned = t.returned || ended;
        pump_seen = t.pump_seen ++ take 1 t.pump_rest;
      }
  step amm t =
      let (rest, s, ended) = turn t.amm_rest t.state in
      record t {
        amm_rest = rest;
        state = s;
        returned = t.returned || ended;
        amm_seen = t.amm_seen ++ take 1 t.amm_rest;
      }

  unfoldable pub run : List Program → Tasks S → Tasks S
  run [] t = t
  run (p ∷ ps) t = run ps (step p t)

  -- Without `amm` there is one task.
  abbrev chosen : Bool → List Output → List Output
  chosen false amm_stream = []
  chosen true amm_stream = amm_stream

  unfoldable pub subscribe_to_pump : Bool → List Output → List Output → List Program → S → Tasks S
  unfolding run step
  subscribe_to_pump with_amm pump_stream amm_stream schedule s = run schedule (record {
    pump_rest = pump_stream;
    amm_rest = chosen with_amm amm_stream;
    state = s;
    returned = false;
    pump_seen = [];
    amm_seen = [];
  })

-- How often a program's task has its turn.
abbrev pub pump_turns : List Program → ℕ
pump_turns [] = 0
pump_turns (pump ∷ ps) = suc (pump_turns ps)
pump_turns (amm ∷ ps) = pump_turns ps

abbrev pub amm_turns : List Program → ℕ
amm_turns [] = 0
amm_turns (pump ∷ ps) = amm_turns ps
amm_turns (amm ∷ ps) = suc (amm_turns ps)

take-nil : (n : ℕ) → take {A = Output} n [] ≡ []
take-nil zero = refl
take-nil (suc n) = refl

module _ {S : Type 0} (on_call : ℕ → Event → S → Option S) (is_calm : Output → Bool)
    (calm : (now : ℕ) (e : Event) (s : S)
      → is_calm (calls now e) ≡ true
      → (s' : S) × (on_call now e s ≡ some s')) where
  turn-calm :
      (o : Output) (rest : List Output) (s : S)
      → is_calm o ≡ true
      → (turn on_call (o ∷ rest) s).0 ≡ rest
  turn-calm (pongs payload) rest s h = refl
  turn-calm (calls now e) rest s h = rw (calm now e s h).1 refl

  run-pump_seen :
      (schedule : List Program) (t : Tasks S) (rest : List Output)
      → t.pump_rest ≡ rest
      → all is_calm rest ≡ true
      → (run on_call schedule t).pump_seen ≡ t.pump_seen ++ take (pump_turns schedule) rest
  unfolding run step
  run-pump_seen [] t rest e h = sym (append-nil t.pump_seen)
  run-pump_seen (amm ∷ ps) t rest e h = run-pump_seen ps (step on_call amm t) rest e h
  run-pump_seen (pump ∷ ps) t [] e h =
      run-pump_seen ps (step on_call pump t) [] (ap (λ r. (turn on_call r t.state).0) e) refl
      ∙ rw (e, take-nil (pump_turns ps)) (append_assoc t.pump_seen [] [])
  run-pump_seen (pump ∷ ps) t (o ∷ os) e h =
      run-pump_seen ps (step on_call pump t) os
        (ap (λ r. (turn on_call r t.state).0) e ∙ turn-calm o os t.state (ground arith))
        (ground arith)
      ∙ rw e (append_assoc t.pump_seen (o ∷ []) (take (pump_turns ps) os))

  run-amm_seen :
      (schedule : List Program) (t : Tasks S) (rest : List Output)
      → t.amm_rest ≡ rest
      → all is_calm rest ≡ true
      → (run on_call schedule t).amm_seen ≡ t.amm_seen ++ take (amm_turns schedule) rest
  unfolding run step
  run-amm_seen [] t rest e h = sym (append-nil t.amm_seen)
  run-amm_seen (pump ∷ ps) t rest e h = run-amm_seen ps (step on_call pump t) rest e h
  run-amm_seen (amm ∷ ps) t [] e h =
      run-amm_seen ps (step on_call amm t) [] (ap (λ r. (turn on_call r t.state).0) e) refl
      ∙ rw (e, take-nil (amm_turns ps)) (append_assoc t.amm_seen [] [])
  run-amm_seen (amm ∷ ps) t (o ∷ os) e h =
      run-amm_seen ps (step on_call amm t) os
        (ap (λ r. (turn on_call r t.state).0) e ∙ turn-calm o os t.state (ground arith))
        (ground arith)
      ∙ rw e (append_assoc t.amm_seen (o ∷ []) (take (amm_turns ps) os))

  -- While its own stream brings nothing that panics, each task goes through its stream by its own turns,
  -- whatever the other one does, a panic included.
  pub subscribe_to_pump-seen :
      (schedule : List Program) (pump_stream amm_stream : List Output) (s : S)
      → let t = subscribe_to_pump on_call true pump_stream amm_stream schedule s in
        (all is_calm pump_stream ≡ true → t.pump_seen ≡ take (pump_turns schedule) pump_stream)
        × (all is_calm amm_stream ≡ true → t.amm_seen ≡ take (amm_turns schedule) amm_stream)
  unfolding subscribe_to_pump
  subscribe_to_pump-seen schedule pump_stream amm_stream s =
      (run-pump_seen schedule _ pump_stream refl, run-amm_seen schedule _ amm_stream refl)
