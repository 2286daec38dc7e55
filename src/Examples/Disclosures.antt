-- ===== src/Examples/Disclosures.antt =====
-- Builders over sets of positions as lists, a request with a cookie, and the theorems about
-- present.rs at these inputs.
use webproof_solana.Prelude.{
  ℕ, ◌⊎◌, sym, ◌∙◌, ◌++◌, ◌||◌, ◌≡◌, refl, arith, ap, true, false, inl, inr, List, [], ◌∷◌, Memᴰ,
  Bytes, codes, Result, ok, bytes_eq,
}
use webproof_solana.Tlsn.Present.{
  Header, HttpRequest, HttpTranscript, Builders, build_presentation, is_secret, reveal,
  reveal_headers, disclosed_part, to_ascii_lowercase,
}
use webproof_solana.Tlsn.Present.Open.{IsSeparate}
use webproof_solana.Tlsn.Present.Disclosed.{
  IsDisclosure, build_presentation-IsDisclosure, build_presentation-hides,
}
use webproof_solana.Examples.Presentations.{toy_ranges, has}

-- A secret header: its name is at 4, its value at 5, and it is revealed without the value.
abbrev cookie : Header toy_ranges
cookie = record { name = codes "Cookie"; indices = 4 ∷ 5 ∷ []; without_value = 4 ∷ [] }

abbrev host : Header toy_ranges
host = record { name = codes "Host"; indices = 3 ∷ []; without_value = [] }

abbrev asked : HttpRequest toy_ranges
asked = record { without_data = 0 ∷ 1 ∷ []; target = 2 ∷ []; headers = host ∷ cookie ∷ [] }

abbrev pub exchange : HttpTranscript toy_ranges
exchange = record { requests = asked ∷ []; responses = (0 ∷ 1 ∷ []) ∷ [] }

pub either : (i : ℕ) (a b : List ℕ) → has i (a ++ b) ≡ (has i a || has i b)
unfolding has
either i [] b = refl
either i (x ∷ xs) b = ground (arith, either i xs b)

pub new_lem : (i : ℕ) → has i [] ≡ false
unfolding has
new_lem i = refl

abbrev returned : List ℕ × List ℕ → Result Bytes (List ℕ × List ℕ)
returned p = ok p

pub same_pair : {p q : List ℕ × List ℕ} → returned p ≡ ok q → p ≡ q
same_pair h = ground arith

-- A builder is the positions to be revealed in the two directions, and so is a presentation.
abbrev pub toy_builders : {A : Type 0} → Builders toy_ranges A (HttpTranscript toy_ranges)
toy_builders = record {
  TranscriptProof = List ℕ × List ℕ;
  Presentation = List ℕ × List ℕ;
  ProofBuilder = List ℕ × List ℕ;
  parse = λ secrets. ok secrets;
  transcript_proof_builder = λ secrets. ([], []);
  reveal_sent = λ part (s, r). ok (s ++ part, r);
  reveal_recv = λ part (s, r). ok (s, r ++ part);
  build_proof = λ p. ok p;
  build = λ attestation secrets proof. ok proof;
  sent = λ (s, r) i. has i s;
  recv = λ (s, r) i. has i r;
  sent-new = λ secrets i. new_lem i;
  recv-new = λ secrets i. new_lem i;
  sent-reveal_sent = λ part p q i h. ap (λ x. has i x.0) (sym (same_pair h)) ∙ either i p.0 part;
  recv-reveal_sent = λ part p q i h. ap (λ x. has i x.1) (sym (same_pair h));
  sent-reveal_recv = λ part p q i h. ap (λ x. has i x.0) (sym (same_pair h));
  recv-reveal_recv = λ part p q i h. ap (λ x. has i x.1) (sym (same_pair h)) ∙ either i p.1 part;
}

abbrev pub presented : List ℕ × List ℕ
presented = (0 ∷ 1 ∷ 2 ∷ 3 ∷ 4 ∷ [], 0 ∷ 1 ∷ [])

built : build_presentation toy_ranges (toy_builders {A = Unit {0}}) tt exchange ≡ ok presented
unfolding build_presentation reveal reveal_headers disclosed_part is_secret to_ascii_lowercase
    bytes_eq
built = refl

build_presentation-IsDisclosure_example :
    IsDisclosure toy_ranges (toy_builders {A = Unit {0}}) tt exchange presented
build_presentation-IsDisclosure_example =
    build_presentation-IsDisclosure toy_ranges (toy_builders {A = Unit {0}}) tt exchange presented
      built

header-cases :
    (header : Header toy_ranges) → Memᴰ header asked.headers → (header ≡ host) ⊎ (header ≡ cookie)
header-cases header (Memᴰ.head e) = inl e
header-cases header (Memᴰ.tail (Memᴰ.head e)) = inr e
header-cases header (Memᴰ.tail (Memᴰ.tail m)) = elim m [ ]

separate : IsSeparate toy_ranges asked
unfolding has
separate = record {
  within = λ header i m. elim (header-cases header m) [
    | inl e ↦ rw e (ground arith)
    | inr e ↦ rw e (ground arith)
  ];
  apart_structure = λ header i m. elim (header-cases header m) [
    | inl e ↦ rw e (ground arith)
    | inr e ↦ rw e (ground arith)
  ];
  apart_target = λ header i m. elim (header-cases header m) [
    | inl e ↦ rw e (ground arith)
    | inr e ↦ rw e (ground arith)
  ];
  apart_headers = λ header other i m n. elim (header-cases header m) [
    | inl e ↦ elim (header-cases other n) [
      | inl f ↦ λ a b. f ∙ sym e
      | inr f ↦ rw (e, f) (λ a b. absurd (ground arith))
    ]
    | inr e ↦ elim (header-cases other n) [
      | inl f ↦ rw (e, f) (λ a b. absurd (ground arith))
      | inr f ↦ λ a b. f ∙ sym e
    ]
  ];
}

build_presentation-hides_example :
    (d : IsDisclosure toy_ranges (toy_builders {A = Unit {0}}) tt exchange presented) × ((i : ℕ)
      → toy_ranges.member i cookie.indices ≡ true
      → toy_ranges.member i cookie.without_value ≡ false
      → (toy_builders {A = Unit {0}}).sent d.builder i ≡ false)
build_presentation-hides_example =
    build_presentation-hides toy_ranges (toy_builders {A = Unit {0}}) tt exchange presented exchange
      asked cookie refl refl separate (Memᴰ.tail (Memᴰ.head refl)) (inr (inl (omega arith))) built
