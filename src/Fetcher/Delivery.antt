-- ===== src/Fetcher/Delivery.antt =====
-- That the subscription of tokenir/src/fetcher.rs delivers what the chain logs.
use mathlib.Core.List.{Mem, mem-cons_self, mem-append_left, mem-append_right}
use tokenir.Prelude.{
  ℕ, ◌≡◌, refl, true, Option, some, List, [], ◌∷◌, ◌++◌, all, arith, append_assoc, sym,
}
use tokenir.Prelude.Text.{Text, strip_prefix, strip_prefix-append}
use tokenir.Solana.{Solana}
use tokenir.Fetcher.{Floats}
use tokenir.Fetcher.Logs.{Log, IsLog, discriminator, body, event_of, parse_optimized-Log}
use tokenir.Fetcher.Stream.{
  Frame, ping, pong, words, close, fault, other, Attempt, refused, unsubscribed, served, calls,
  data_prefix, seconds, on_data, on_words, on_logs, read_loop, subscribe_to_websocket, stays_up,
}

module _ (sol : Solana) (f : Floats) (decode : Text → Option (List ℕ))
    (parse_logs : Text → Option (List Text)) where
  on_logs-append :
      (now : ℕ) (xs ys : List Text)
      → on_logs sol f decode parse_logs now (xs ++ ys)
        ≡ on_logs sol f decode parse_logs now xs ++ on_logs sol f decode parse_logs now ys
  unfolding on_logs
  on_logs-append now [] ys = refl
  on_logs-append now (x ∷ xs) ys = rw (on_logs-append now xs ys) (
      sym (
        append_assoc (on_data sol f decode parse_logs now (strip_prefix data_prefix x))
          (on_logs sol f decode parse_logs now xs) (on_logs sol f decode parse_logs now ys)))

  read_loop-append :
      (xs ys : List (ℕ × Frame))
      → all stays_up xs ≡ true
      → read_loop sol f decode parse_logs (xs ++ ys)
        ≡ read_loop sol f decode parse_logs xs ++ read_loop sol f decode parse_logs ys
  unfolding read_loop
  read_loop-append [] ys h = refl
  read_loop-append ((now, ping p) ∷ xs) ys h = rw (read_loop-append xs ys h) refl
  read_loop-append ((now, pong) ∷ xs) ys h = read_loop-append xs ys h
  read_loop-append ((now, words t) ∷ xs) ys h = rw (read_loop-append xs ys h) (
      sym (
        append_assoc (on_words sol f decode parse_logs now (parse_logs t))
          (read_loop sol f decode parse_logs xs) (read_loop sol f decode parse_logs ys)))
  read_loop-append ((now, close) ∷ xs) ys h = ground arith
  read_loop-append ((now, fault) ∷ xs) ys h = ground arith
  read_loop-append ((now, other) ∷ xs) ys h = read_loop-append xs ys h

  subscribe-append :
      (xs ys : List Attempt)
      → subscribe_to_websocket sol f decode parse_logs (xs ++ ys)
        ≡ subscribe_to_websocket sol f decode parse_logs xs
          ++ subscribe_to_websocket sol f decode parse_logs ys
  unfolding subscribe_to_websocket
  subscribe-append [] ys = refl
  subscribe-append (refused ∷ xs) ys = subscribe-append xs ys
  subscribe-append (unsubscribed ∷ xs) ys = subscribe-append xs ys
  subscribe-append (served frames ∷ xs) ys = rw (subscribe-append xs ys) (
      sym (
        append_assoc (read_loop sol f decode parse_logs frames)
          (subscribe_to_websocket sol f decode parse_logs xs)
          (subscribe_to_websocket sol f decode parse_logs ys)))

  on_log-Mem :
      (now : ℕ) (more : List Text) (text : Text) (l : Log) (extra : List ℕ)
      → IsLog l extra
      → decode text ≡ some (discriminator l ++ (body l ++ extra))
      → Mem
          (calls now (event_of sol f (seconds now) l))
          (on_logs sol f decode parse_logs now ((data_prefix ++ text) ∷ more))
  unfolding on_logs
  on_log-Mem now more text l extra h d =
      rw (strip_prefix-append data_prefix text)
        (rw (parse_optimized-Log sol f (seconds now) decode text l extra h d) mem-cons_self)

  on_logs-Mem :
      (now : ℕ) (logs more : List Text) (text : Text) (l : Log) (extra : List ℕ)
      → IsLog l extra
      → decode text ≡ some (discriminator l ++ (body l ++ extra))
      → Mem
          (calls now (event_of sol f (seconds now) l))
          (on_logs sol f decode parse_logs now (logs ++ ((data_prefix ++ text) ∷ more)))
  on_logs-Mem now logs more text l extra h d =
      rw (on_logs-append now logs ((data_prefix ++ text) ∷ more))
        (mem-append_right _ (on_log-Mem now more text l extra h d))

  read_loop-Mem :
      (frames later : List (ℕ × Frame)) (now : ℕ) (message : Text) (logs more : List Text)
      (text : Text) (l : Log) (extra : List ℕ)
      → all stays_up frames ≡ true
      → parse_logs message ≡ some (logs ++ ((data_prefix ++ text) ∷ more))
      → decode text ≡ some (discriminator l ++ (body l ++ extra))
      → IsLog l extra
      → Mem
          (calls now (event_of sol f (seconds now) l))
          (read_loop sol f decode parse_logs (frames ++ ((now, words message) ∷ later)))
  unfolding read_loop
  read_loop-Mem frames later now message logs more text l extra up parsed d h =
      rw (read_loop-append frames ((now, words message) ∷ later) up) (
        mem-append_right (read_loop sol f decode parse_logs frames) (
          rw parsed (
            mem-append_left (read_loop sol f decode parse_logs later)
              (on_logs-Mem now logs more text l extra h d))))

  -- A log of the chain reaches the callback as its event, whichever connections failed or were lost
  -- before it, if the frames before it on its own connection are neither a close nor an error.
  pub subscribe-Mem :
      (before after : List Attempt) (frames later : List (ℕ × Frame)) (now : ℕ) (message : Text)
      (logs more : List Text) (text : Text) (l : Log) (extra : List ℕ)
      → all stays_up frames ≡ true
      → parse_logs message ≡ some (logs ++ ((data_prefix ++ text) ∷ more))
      → decode text ≡ some (discriminator l ++ (body l ++ extra))
      → IsLog l extra
      → Mem (calls now (event_of sol f (seconds now) l)) (
          subscribe_to_websocket sol f decode parse_logs
            (before ++ (served (frames ++ ((now, words message) ∷ later)) ∷ after)))
  unfolding subscribe_to_websocket
  subscribe-Mem before after frames later now message logs more text l extra up parsed d h =
      rw (subscribe-append before (served (frames ++ ((now, words message) ∷ later)) ∷ after)) (
        mem-append_right (subscribe_to_websocket sol f decode parse_logs before) (
          mem-append_left (subscribe_to_websocket sol f decode parse_logs after)
            (read_loop-Mem frames later now message logs more text l extra up parsed d h)))
