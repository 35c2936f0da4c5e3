-- ===== src/Control/Server/Loop.antt =====
-- The loop of `ControlServer._serve` ends or waits for the peer: each round takes a line.
use vertex_testbed.Control.Server.{
  is_timeout, Connection, out_of_fuel, Round, goes_on, stops, CommandHandler, respond, count_served,
  send_result, handle, act, proceed, serve,
}
use vertex_testbed.Control.Protocol.{Json, Request, Response, Command, decode_request, newline}
use vertex_testbed.Control.Transport.{
  StreamReader, Ending, closed, silent, received, joined, take_line, split_line, at_end, read_line,
  read_request, stream_limit,
}
use vertex_testbed.Common.{
  Bool, if◌then◌else◌, List, [], ◌∷◌, ℕ, zero, suc, Option, none, some, Result, ok, err, true,
  false, ◌++◌, ◌≡◌, ◌≢◌, Exception, length, ◌<◌, ◌>>=◌, arith, length-append, Bool-cases, inl, inr,
  ◌⊎◌, ◌==◌, ltb, require, not,
}
use vertex_testbed.Common.Bytes.{Bytes}

abbrev LineBelow : ℕ → Option (Bytes × Bytes) → Type 0
LineBelow n none = Unit {0}
LineBelow n (some (line, rest)) = length rest < n

take_line-LineBelow : (c : Bytes) → LineBelow (length c) (take_line c)
unfolding take_line
take_line-LineBelow [] = tt
take_line-LineBelow (b ∷ bs) =
    go (Bool-cases (b == newline)) (take_line bs) (take_line-LineBelow bs)
  where
    go :
        ((b == newline) ≡ true) ⊎ ((b == newline) ≡ false)
        → (o : Option (Bytes × Bytes)) → LineBelow (length bs) o
        → LineBelow (suc (length bs)) (
            if b == newline
            then some ([], bs)
            else elim o [ none ↦ none | some p ↦ some (b ∷ p.0, p.1) ])
    go (inl t) o h = rw t (omega arith)
    go (inr f) none h = rw f tt
    go (inr f) (some (line, rest)) h = rw f (omega arith)

abbrev SplitBelow : ℕ → Option (Bytes × List Bytes) → Type 0
SplitBelow n none = Unit {0}
SplitBelow n (some (line, rest)) = length (joined rest) < n

split_line-SplitBelow : (cs : List Bytes) → SplitBelow (length (joined cs)) (split_line cs)
unfolding split_line
split_line-SplitBelow [] = tt
split_line-SplitBelow (c ∷ cs) =
    go (take_line c) (take_line-LineBelow c) (split_line cs) (split_line-SplitBelow cs)
  where
    go :
        (o : Option (Bytes × Bytes))
        → LineBelow (length c) o
        → (q : Option (Bytes × List Bytes)) → SplitBelow (length (joined cs)) q
        → SplitBelow (length (c ++ joined cs)) (elim o [
          | some p ↦ some (p.0, p.1 ∷ cs)
          | none ↦ elim q [ none ↦ none | some q ↦ some (c ++ q.0, q.1) ]
        ])
    go (some (line, rest)) h q k =
        omega (arith, length-append c (joined cs), length-append rest (joined cs))
    go none h none k = tt
    go none h (some (line, rest)) k = omega (arith, length-append c (joined cs))

abbrev ReadBelow {ℓ} : {A : Type ℓ} → ℕ → Result (Option A × StreamReader) → Type 0
ReadBelow n (err e) = Unit {0}
ReadBelow n (ok (none, r)) = Unit {0}
ReadBelow n (ok (some a, r)) = length (received r) < n

ReadBelow-require {ℓ} :
    {A : Type ℓ} (b : Bool) (e : Exception) (n : ℕ) (x : Result (Option A × StreamReader))
    → ReadBelow n x
    → ReadBelow n (require b e >>= λ _. x)
ReadBelow-require true e n x h = h
ReadBelow-require false e n x h = tt

read_line-ReadBelow : (r : StreamReader) → ReadBelow (length (received r)) (read_line r)
unfolding read_line at_end
read_line-ReadBelow r = go (split_line r.arriving) (split_line-SplitBelow r.arriving)
  where
    at_the_end : (ending : Ending) (bs : Bytes) (n : ℕ) → ReadBelow n (at_end ending bs)
    at_the_end silent bs n = tt
    at_the_end closed [] n = tt
    at_the_end closed (b ∷ bs) n = tt

    go :
        (o : Option (Bytes × List Bytes))
        → SplitBelow (length (received r)) o
        → ReadBelow (length (received r)) (elim o [
          | some p ↦ require (not (ltb stream_limit (length p.0))) Exception.protocol_error >>= λ _.
              ok (some p.0, record r { arriving = p.1 })
          | none ↦
              require (not (ltb stream_limit (length (received r)))) Exception.protocol_error
              >>= λ _. at_end r.ending (received r)
        ])
    go none h =
        ReadBelow-require (not (ltb stream_limit (length (received r)))) _ _ _
          (at_the_end r.ending (received r) (length (received r)))
    go (some (line, rest)) h = ReadBelow-require (not (ltb stream_limit (length line))) _ _ _ h

module _ {Doc Args : Type 0} (lib : Json Doc Args) where
  read_request-ReadBelow : (r : StreamReader) → ReadBelow (length (received r)) (read_request lib r)
  unfolding read_request
  read_request-ReadBelow r = go (read_line r) (read_line-ReadBelow r)
    where
      decoded :
          (x : Result (Request Args)) (r' : StreamReader)
          → length (received r') < length (received r)
          → ReadBelow (length (received r)) (x >>= λ req. ok (some req, r'))
      decoded (err e) r' h = tt
      decoded (ok req) r' h = h

      go :
          (x : Result (Option Bytes × StreamReader))
          → ReadBelow (length (received r)) x
          → ReadBelow (length (received r)) (
              x >>= λ p. elim (p.0) [
                | none ↦ ok (none, p.1)
                | some line ↦ decode_request lib line >>= λ req. ok (some req, p.1)
              ])
      go (err e) h = tt
      go (ok (none, r')) h = tt
      go (ok (some line, r')) h = decoded (decode_request lib line) r' h

-- A round that goes on does so on a shorter stream, and no round ends for want of fuel.
abbrev GoesOnBelow : {S : Type 0} → ℕ → Round S → Type 0
GoesOnBelow n (goes_on r c) = length (received r) < n
GoesOnBelow n (stops exit c) = exit ≢ out_of_fuel

module _ {Doc Args S : Type 0} (lib : Json Doc Args) (empty : Args) (text : Exception → Bytes)
    (handlers : Command → Option (CommandHandler Args S)) where
  count_served-GoesOnBelow :
      (n : ℕ) (r : StreamReader) (c : Connection S) (x : Result (Connection S))
      → length (received r) < n
      → GoesOnBelow n (count_served lib empty text handlers r c x)
  unfolding count_served
  count_served-GoesOnBelow n r c (err e) h = λ q. absurd (ground arith)
  count_served-GoesOnBelow n r c (ok c') h = h

  send_result-GoesOnBelow :
      (n : ℕ) (r : StreamReader) (c : Connection S) (x : S × Result (Response Args × Option Bytes))
      → length (received r) < n
      → GoesOnBelow n (send_result lib empty text handlers r c x)
  unfolding send_result
  send_result-GoesOnBelow n r c (s, err e) h = h
  send_result-GoesOnBelow n r c (s, ok (resp, blob)) h =
      count_served-GoesOnBelow n r (record c { state = s })
        (respond lib empty text handlers resp blob (record c { state = s })) h

  handle-GoesOnBelow :
      (n : ℕ) (r : StreamReader) (c : Connection S) (req : Request Args)
      (o : Option (CommandHandler Args S))
      → length (received r) < n
      → GoesOnBelow n (handle lib empty text handlers r c req o)
  unfolding handle
  handle-GoesOnBelow n r c req none h = h
  handle-GoesOnBelow n r c req (some f) h = send_result-GoesOnBelow n r c (f req.args c.state) h

  act-GoesOnBelow :
      (n : ℕ) (c : Connection S) (x : Result (Option (Request Args) × StreamReader))
      → ReadBelow n x
      → GoesOnBelow n (act lib empty text handlers c x)
  unfolding act
  act-GoesOnBelow n c (ok (none, r)) h = λ q. absurd (ground arith)
  act-GoesOnBelow n c (ok (some req, r)) h = handle-GoesOnBelow n r c req (handlers req.command) h
  act-GoesOnBelow n c (err e) h = go (Bool-cases (is_timeout e))
    where
      go :
          (is_timeout e ≡ true) ⊎ (is_timeout e ≡ false)
          → GoesOnBelow n (act lib empty text handlers c (err e))
      go (inl t) = rw (t, act) (λ q. absurd (ground arith))
      go (inr f) = rw (f, act) (λ q. absurd (ground arith))

  -- The loop of the server ends or waits for the peer: on a stream of `n` bytes it takes `n + 1`
  -- rounds at most, whatever the bytes are and whatever the handlers do.
  pub serve_ends :
      (fuel : ℕ) (r : StreamReader) (c : Connection S)
      → length (received r) < fuel
      → (serve lib empty text handlers fuel r c).0 ≢ out_of_fuel
  unfolding serve
  serve_ends zero r c h = absurd (omega arith)
  serve_ends (suc fuel) r c h =
      go (act lib empty text handlers c (read_request lib r))
        (act-GoesOnBelow (length (received r)) c (read_request lib r)
          (read_request-ReadBelow lib r))
        (serve_ends fuel)
    where
      go :
          (round : Round S)
          → GoesOnBelow (length (received r)) round
          → ((r' : StreamReader) (c' : Connection S)
              → length (received r') < fuel
              → (serve lib empty text handlers fuel r' c').0 ≢ out_of_fuel)
          → (proceed lib empty text handlers (serve lib empty text handlers fuel) round).0
            ≢ out_of_fuel
      go (goes_on r' c') k ih = ih r' c' (omega arith)
      go (stops exit c') k ih = k
