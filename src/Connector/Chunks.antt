-- ===== src/Connector/Chunks.antt =====
-- The chunks of a text hold the whole text (services/api/internal/connector/pipeline.go).
use agent_nexus.Prelude.{
  ℕ, zero, suc, ◌+◌, ◌-◌, ◌≤◌, ◌<◌, ◌≡◌, refl, sym, ap, ◌∙◌, ◌⊎◌, inl, inr, true, false, List, [],
  ◌∷◌, ◌++◌, length, take, drop, All, arith, ◌==◌, ==_refl, ltb, leb, if◌then◌else◌, Bool-cases,
}
use agent_nexus.Prelude.Text.{Text}
use agent_nexus.Connector.{next_start, chunk_end, chunk_from, chunk_text}

take-take : (a b : ℕ) (s : Text) → a ≤ b → take a (take b s) ≡ take a s
take-take zero b s h = refl
take-take (suc a) zero s h = absurd (omega arith)
take-take (suc a) (suc b) [] h = refl
take-take (suc a) (suc b) (c ∷ s) h = ap (λ r. c ∷ r) (take-take a b s (omega arith))

take-drop-append : (n : ℕ) (s : Text) → take n s ++ drop n s ≡ s
take-drop-append zero s = refl
take-drop-append (suc n) [] = refl
take-drop-append (suc n) (c ∷ s) = ap (λ r. c ∷ r) (take-drop-append n s)

drop-nil : (n : ℕ) → drop {A = ℕ} n [] ≡ []
drop-nil zero = refl
drop-nil (suc n) = refl

drop-drop : (a b : ℕ) (s : Text) → drop a (drop b s) ≡ drop (b + a) s
drop-drop a zero s = (let e : a ≡ 0 + a = omega arith in ap (λ k. drop k s) e)
drop-drop a (suc b) [] = drop-nil a ∙ sym (drop-nil (suc b + a))
drop-drop a (suc b) (c ∷ s) =
    let e : suc (b + a) ≡ suc b + a = omega arith in drop-drop a b s ∙ ap (λ k. drop k (c ∷ s)) e

take-long : (n : ℕ) (s : Text) → length s ≤ n → take n s ≡ s
take-long zero [] h = refl
take-long zero (c ∷ s) h = absurd (omega arith)
take-long (suc n) [] h = refl
take-long (suc n) (c ∷ s) h = ap (λ r. c ∷ r) (take-long n s (omega arith))

length-drop-monus : (n : ℕ) (s : Text) → length (drop n s) ≡ length s - n
length-drop-monus zero s = omega arith
length-drop-monus (suc n) [] = omega arith
length-drop-monus (suc n) (c ∷ s) = (let h = length-drop-monus n s in omega arith)

length-take-short : (n : ℕ) (s : Text) → length (take n s) ≤ n
length-take-short zero s = omega arith
length-take-short (suc n) [] = omega arith
length-take-short (suc n) (c ∷ s) = (let h = length-take-short n s in omega arith)

-- what each round but the last moves on by
abbrev pub stride : ℕ → ℕ → ℕ
stride size overlap = if leb size overlap then 1 else size - overlap

-- The chunks without their overlaps: of each but the last, the part that the next one does not begin with.
abbrev pub glue : ℕ → List Text → Text
glue by [] = []
glue by (c ∷ []) = c
glue by (c ∷ d ∷ cs) = take by c ++ glue by (d ∷ cs)

next_start-stride :
    (size overlap start : ℕ)
    → 1 ≤ size
    → next_start overlap start (start + size) ≡ start + stride size overlap
next_start-stride size overlap start h = ground arith

stride-bounds :
    (size overlap : ℕ) → 1 ≤ size → (1 ≤ stride size overlap) × (stride size overlap ≤ size)
stride-bounds size overlap h = (ground arith, ground arith)

-- a chunk that is not the last, and what the rest glues to
glue-cons :
    (by size : ℕ) (s : Text) (rest : List Text)
    → by ≤ size
    → by < length s
    → glue by rest ≡ drop by s
    → glue by (take size s ∷ rest) ≡ s
glue-cons by size s [] h lt e =
    absurd (let k = length-drop-monus by s in let j = ap length e in omega arith)
glue-cons by size s (d ∷ cs) h lt e =
    ap (λ r. r ++ glue by (d ∷ cs)) (take-take by size s h)
    ∙ (ap (λ r. take by s ++ r) e ∙ take-drop-append by s)

chunk_end-last : (size start total : ℕ) → total ≤ start + size → chunk_end size start total ≡ total
chunk_end-last size start total h = ground arith

chunk_end-inner :
    (size start total : ℕ) → start + size < total → chunk_end size start total ≡ start + size
chunk_end-inner size start total h = ground arith

ltb-true : (a b : ℕ) → a < b → ltb a b ≡ true
ltb-true a b h = ground arith

chunk_from-last :
    (n : ℕ) (runes : Text) (size overlap start : ℕ)
    → start < length runes
    → length runes ≤ start + size
    → chunk_from (suc n) runes size overlap start ≡ drop start runes ∷ []
unfolding chunk_from
chunk_from-last n runes size overlap start lt h =
    let s = ltb-true start (length runes) lt in
    let e = chunk_end-last size start (length runes) h in
    let whole =
      take-long (length runes - start) (drop start runes)
        (let k = length-drop-monus start runes in omega arith) in
    rw (s, e, ==_refl (length runes)) (ap (λ c. c ∷ []) whole)

chunk_from-inner :
    (n : ℕ) (runes : Text) (size overlap start : ℕ)
    → 1 ≤ size
    → start + size < length runes
    → chunk_from (suc n) runes size overlap start
      ≡ take size (drop start runes) ∷ chunk_from n runes size overlap (start + stride size overlap)
unfolding chunk_from
chunk_from-inner n runes size overlap start pos h =
    let s = ltb-true start (length runes) (omega arith) in
    let e = chunk_end-inner size start (length runes) h in
    let more : (start + size == length runes) ≡ false = ground arith in
    let width : start + size - start ≡ size = omega arith in
    rw (s, e, more, width, next_start-stride size overlap start pos) refl

le_or_lt : (a b : ℕ) → (a ≤ b) ⊎ (b < a)
le_or_lt a b = ground arith

-- the chunks glue to the text from start on, and none is longer than size
record Covers (size overlap : ℕ) (s : Text) (chunks : List Text) : Type 0 where
  whole : glue (stride size overlap) chunks ≡ s
  short : All (λ c. length c ≤ size) chunks

chunk_from-Covers :
    (n : ℕ) (runes : Text) (size overlap start : ℕ)
    → 1 ≤ size
    → start < length runes
    → length runes ≤ start + n
    → Covers size overlap (drop start runes) (chunk_from n runes size overlap start)
chunk_from-Covers zero runes size overlap start pos lt enough = absurd (omega arith)
chunk_from-Covers (suc n) runes size overlap start pos lt enough =
    elim (le_or_lt (length runes) (start + size)) [
      | inl h ↦ rw (chunk_from-last n runes size overlap start lt h) (record {
        whole = refl;
        short = ((let k = length-drop-monus start runes in omega arith), tt);
      })
      | inr h ↦
          let by = stride size overlap in
          let (low, high) = stride-bounds size overlap pos in
          let k = length-drop-monus start runes in
          let rest =
            chunk_from-Covers n runes size overlap (start + by) pos (omega arith) (omega arith) in
          rw (chunk_from-inner n runes size overlap start pos h) (record {
            whole =
                glue-cons by size (drop start runes) (chunk_from n runes size overlap (start + by))
                  high (omega arith) (rest.whole ∙ sym (drop-drop by start runes));
            short = (length-take-short size (drop start runes), rest.short);
          })
    ]

-- When the size is positive, the chunks without their overlaps are the text, and no chunk is longer than
-- the size.
pub chunk_text-glue :
    (text : Text) (size overlap : ℕ)
    → 1 ≤ size
    → (glue (stride size overlap) (chunk_text text size overlap) ≡ text)
      × All (λ c. length c ≤ size) (chunk_text text size overlap)
unfolding chunk_text
chunk_text-glue text size overlap pos = elim (Bool-cases (leb (length text) size)) [
  | inl e ↦ rw e (refl, (ground arith, tt))
  | inr e ↦
      let c =
        chunk_from-Covers (length text) text size overlap 0 pos (ground arith) (omega arith) in
      rw e (c.whole, c.short)
]
