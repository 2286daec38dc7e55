-- ===== src/Tlsn/Fixture/Serving.antt =====
-- When the loop of fixture.rs ends, and what it has served then.
use webproof_solana.Prelude.{
  ℕ, zero, suc, ◌+◌, ◌≤◌, ◌<◌, ◌≡◌, ◌↔◌, refl, ap, ◌∙◌, subst, arith, inl, inr, Option,
  Option-cases, none, some, some-injective, List, [], ◌∷◌, length, get_elem?,
}
use webproof_solana.Tlsn.Fixture.{Tcp, round, serve}

module _ (tcp : Tcp) (listener : tcp.Listener) where
  -- The answers from a call on are these sockets in their order, and then a failure.
  abbrev pub Answers : ℕ → List tcp.Socket → Type 0
  Answers i sockets =
      (j : ℕ) → j ≤ length sockets → tcp.accept listener (i + j) ≡ get_elem? sockets j

  Answers-nil : (i : ℕ) → tcp.accept listener i ≡ none → Answers i []
  Answers-nil i failed zero small =
      let here : i + 0 ≡ i = omega arith in ap (tcp.accept listener) here ∙ failed
  Answers-nil i failed (suc j) small = absurd (omega arith)

  Answers-cons :
      (i : ℕ) (socket : tcp.Socket) (rest : List tcp.Socket)
      → tcp.accept listener i ≡ some socket
      → Answers (suc i) rest
      → Answers i (socket ∷ rest)
  Answers-cons i socket rest accepted answers zero small =
      let here : i + 0 ≡ i = omega arith in ap (tcp.accept listener) here ∙ accepted
  Answers-cons i socket rest accepted answers (suc j) small =
      let later : i + suc j ≡ suc i + j = omega arith in
      ap (tcp.accept listener) later ∙ answers j (omega arith)

  round-eq-some :
      (socket : tcp.Socket) (r : Option (List tcp.Socket)) (sockets : List tcp.Socket)
      → round tcp (some socket) r ≡ some sockets
      → (rest : List tcp.Socket) × (r ≡ some rest) × (socket ∷ rest ≡ sockets)
  round-eq-some socket none sockets h = cc
  round-eq-some socket (some rest) sockets h = (rest, refl, some-injective _ _ h)

  abbrev EndsWith : ℕ → ℕ → List tcp.Socket → Type 0
  EndsWith rounds i sockets = (length sockets < rounds) × Answers i sockets

  serve→Answers :
      (rounds i : ℕ) (sockets : List tcp.Socket)
      → serve tcp rounds listener i ≡ some sockets
      → EndsWith rounds i sockets
  unfolding serve
  serve→Answers zero i sockets h = cc
  serve→Answers (suc rounds) i sockets h = elim (Option-cases (tcp.accept listener i)) [
    | inl failed ↦
        subst (EndsWith (suc rounds) i) (some-injective _ _ (rw failed at h))
          (omega arith, Answers-nil i failed)
    | inr (socket, accepted) ↦
        let (rest, served, same) =
          round-eq-some socket (serve tcp rounds listener (suc i)) sockets (rw accepted at h) in
        let (few, answers) = serve→Answers rounds (suc i) rest served in
        subst (EndsWith (suc rounds) i) same
          (omega arith, Answers-cons i socket rest accepted answers)
  ]

  Answers→serve :
      (rounds i : ℕ) (sockets : List tcp.Socket)
      → length sockets < rounds
      → Answers i sockets
      → serve tcp rounds listener i ≡ some sockets
  unfolding serve
  Answers→serve zero i sockets few answers = absurd (omega arith)
  Answers→serve (suc rounds) i [] few answers =
      let here : i ≡ i + 0 = omega arith in
      let failed : tcp.accept listener i ≡ none =
        ap (tcp.accept listener) here ∙ answers 0 (omega arith) in
      rw failed refl
  Answers→serve (suc rounds) i (socket ∷ rest) few answers =
      let here : i ≡ i + 0 = omega arith in
      let accepted : tcp.accept listener i ≡ some socket =
        ap (tcp.accept listener) here ∙ answers 0 (omega arith) in
      rw (accepted, Answers→serve rounds (suc i) rest (omega arith) (later socket rest answers))
        refl
    where
      later :
          (socket : tcp.Socket) (rest : List tcp.Socket)
          → Answers i (socket ∷ rest)
          → Answers (suc i) rest
      later socket rest answers j small =
          let step : suc i + j ≡ i + suc j = omega arith in
          ap (tcp.accept listener) step ∙ answers (suc j) (omega arith)

  -- The serving loop ends exactly when a connection cannot be accepted: it has broken within a number
  -- of rounds, having handed on these sockets, exactly if they are fewer than the rounds and the
  -- answers of `accept` from the first call on are these sockets, each once and in their order, and
  -- then a failure.
  pub serve_iff :
      (rounds : ℕ) (sockets : List tcp.Socket)
      → (serve tcp rounds listener 0 ≡ some sockets)
        ↔ ((length sockets < rounds) × Answers 0 sockets)
  serve_iff rounds sockets =
      (serve→Answers rounds 0 sockets, λ (few, answers). Answers→serve rounds 0 sockets few answers)
