-- ===== src/Sdk/Gate/Stream/Reads.antt =====
-- What the boundaries between reads do to a stream.
use trust_vault.Prelude.{
  ℕ, ◌≡◌, inl, inr, ◌≢◌, refl, ap, sym, ◌∙◌, false, Option, none, List, [], ◌∷◌, ◌++◌, Text, text,
  text_eq, starts_with, All, arith, ◌==◌, if◌then◌else◌, Bool-cases, some,
}
use trust_vault.Sdk.Types.{GateQueryResponse, StreamChunk}
use trust_vault.Sdk.Errors.{Thrown}
use trust_vault.Sdk.Effect.{World, Result, ok, throw, Io, continue, ◌>>=◌, got_chunk}
use trust_vault.Sdk.Gate.Stream.{
  onto_first, split_lines, data_prefix, done_mark, deliver, process_line, process_lines,
  process_reads,
}

split_lines-cons : (s : Text) → (l : Text) × (ls : List Text) × (split_lines s ≡ l ∷ ls)
unfolding split_lines
split_lines-cons [] = ([], [], refl)
split_lines-cons (c ∷ s) = elim (Bool-cases (c == 10)) [
  | inl e ↦ ([], split_lines s, rw e)
  | inr e ↦ let (l, ls, same) = split_lines-cons s in (c ∷ l, ls, rw (e, same))
]

onto_first-append :
    (c : ℕ) (xs ys : List Text) {l : Text} {ls : List Text}
    → xs ≡ l ∷ ls
    → onto_first c (xs ++ ys) ≡ onto_first c xs ++ ys
onto_first-append c [] ys e = cc
onto_first-append c (x ∷ xs) ys e = refl

-- A newline ends a line, whatever stands before and behind it.
split_lines-append : (a b : Text) → split_lines (a ++ (10 ∷ b)) ≡ split_lines a ++ split_lines b
unfolding split_lines
split_lines-append [] b = refl
split_lines-append (c ∷ a) b = elim (Bool-cases (c == 10)) [
  | inl e ↦ rw e (ap (λ ls. [] ∷ ls) (split_lines-append a b))
  | inr e ↦
      let (l, ls, same) = split_lines-cons a in
      rw e (
        ap (onto_first c) (split_lines-append a b)
        ∙ onto_first-append c (split_lines a) (split_lines b) same)
]

-- A text without a newline.
abbrev pub OneLine : Text → Type 0
OneLine = All (λ c. c ≢ 10)

OneLine-append : (x y : Text) → OneLine x → OneLine y → OneLine (x ++ y)
OneLine-append [] y hx hy = hy
OneLine-append (c ∷ x) y hx hy = (hx.0, OneLine-append x y hx.1 hy)

split_lines-OneLine : (s : Text) → OneLine s → split_lines s ≡ s ∷ []
unfolding split_lines
split_lines-OneLine [] h = refl
split_lines-OneLine (c ∷ s) h = ground (arith, split_lines-OneLine s h.1)

continue_assoc :
    {A B C : Type 0} (r : Result A) (f : A → Io B) (g : B → Io C) (w : World)
    → (continue r f >>= g) w ≡ continue r (λ a. f a >>= g) w
continue_assoc (ok a) f g w = refl
continue_assoc (throw e) f g w = refl

module _ (decode : Text → Option StreamChunk) (callback : World → StreamChunk → Option Thrown) where
  abbrev lines_then :
      List Text
      → (Option GateQueryResponse → Io (Option GateQueryResponse))
      → Option GateQueryResponse
      → Io (Option GateQueryResponse)
  lines_then ls rest final = process_lines decode callback ls final >>= rest

  after_line :
      (xs ys : List Text)
      → ((f : Option GateQueryResponse) (v : World)
          → process_lines decode callback (xs ++ ys) f v
            ≡ lines_then xs (process_lines decode callback ys) f v)
      → (r : Result (Option GateQueryResponse)) (w : World)
      → continue r (λ f. process_lines decode callback (xs ++ ys) f) w
        ≡ (continue r (λ f. process_lines decode callback xs f)
              >>= process_lines decode callback ys)
            w
  after_line xs ys ih (ok f) w = ih f w
  after_line xs ys ih (throw e) w = refl

  process_lines-append :
      (xs ys : List Text) (final : Option GateQueryResponse) (w : World)
      → process_lines decode callback (xs ++ ys) final w
        ≡ lines_then xs (process_lines decode callback ys) final w
  unfolding process_lines
  process_lines-append [] ys final w = refl
  process_lines-append (x ∷ xs) ys final w =
      let (r, v) = process_line decode callback x final w in
      after_line xs ys (process_lines-append xs ys) r v

  empty_line :
      (r : Result (Option GateQueryResponse)) (w : World)
      → continue r (process_lines decode callback ([] ∷ [])) w ≡ (r, w)
  unfolding process_lines process_line text
  empty_line (ok f) w = refl
  empty_line (throw e) w = refl

  -- The line that stands behind the last newline of a read is empty, and changes nothing.
  process_lines-append_empty :
      (xs : List Text) (final : Option GateQueryResponse) (w : World)
      → process_lines decode callback (xs ++ ([] ∷ [])) final w
        ≡ process_lines decode callback xs final w
  process_lines-append_empty xs final w =
      let (r, v) = process_lines decode callback xs final w in
      process_lines-append xs ([] ∷ []) final w ∙ empty_line r v

  -- A stream may be cut behind a newline: two reads then give what one read of both texts gives.
  pub process_reads_cut :
      (a b : Text) (ts : List Text) (final : Option GateQueryResponse) (w : World)
      → process_reads decode callback ((a ++ (10 ∷ [])) ∷ b ∷ ts) final w
        ≡ process_reads decode callback ((a ++ (10 ∷ b)) ∷ ts) final w
  unfolding process_reads
  process_reads_cut a b ts final w =
      let rest = λ (f : Option GateQueryResponse). process_reads decode callback ts f in
      let second = lines_then (split_lines b) rest in
      let first : process_lines decode callback (split_lines (a ++ (10 ∷ []))) final w
          ≡ process_lines decode callback (split_lines a) final w =
        ap (λ ls. process_lines decode callback ls final w) (split_lines-append a [])
        ∙ process_lines-append_empty (split_lines a) final w in
      let both : process_lines decode callback (split_lines (a ++ (10 ∷ b))) final w
          ≡ lines_then (split_lines a) (process_lines decode callback (split_lines b)) final w =
        ap (λ ls. process_lines decode callback ls final w) (split_lines-append a b)
        ∙ process_lines-append (split_lines a) (split_lines b) final w in
      let (r, v) = process_lines decode callback (split_lines a) final w in
      ap (λ x. continue x.0 second x.1) first
      ∙ sym (continue_assoc r (process_lines decode callback (split_lines b)) rest v)
      ∙ ap (λ x. continue x.0 rest x.1) (sym both)

  continue-pure :
      (r : Result (Option GateQueryResponse)) (w : World) → continue r (λ f v. (ok f, v)) w ≡ (r, w)
  continue-pure (ok f) w = refl
  continue-pure (throw e) w = refl

  data_line-OneLine : (s : Text) → OneLine s → OneLine (data_prefix ++ s)
  unfolding text
  data_line-OneLine s h =
      (omega arith, (omega arith, (omega arith, (omega arith, (omega arith, (omega arith, h))))))

  -- A read that is one line of data.
  data_line :
      (s : Text) (final : Option GateQueryResponse) (w : World)
      → process_line decode callback (data_prefix ++ s) final w
        ≡ (if text_eq s done_mark
              then (λ v. (ok final, v))
              else deliver decode callback (decode s) final)
            w
  unfolding process_line text
  data_line s final w = refl

  lines-OneLine :
      (s : Text) (final : Option GateQueryResponse) (w : World)
      → OneLine s
      → process_lines decode callback (split_lines s) final w
        ≡ process_line decode callback s final w
  unfolding process_lines
  lines-OneLine s final w h =
      let (r, v) = process_line decode callback s final w in
      ap (λ ls. process_lines decode callback ls final w) (split_lines-OneLine s h)
      ∙ continue-pure r v

  -- Data that does not parse, and a line that is no data, are passed over.
  bad_data :
      (s : Text) (final : Option GateQueryResponse) (w : World)
      → decode s ≡ none
      → process_line decode callback (data_prefix ++ s) final w ≡ (ok final, w)
  unfolding deliver
  bad_data s final w h = data_line s final w ∙ ground arith

  no_data_line :
      (s : Text) (final : Option GateQueryResponse) (w : World)
      → starts_with data_prefix s ≡ false
      → process_line decode callback s final w ≡ (ok final, w)
  unfolding process_line
  no_data_line s final w h = rw h

  -- A line of data that a read boundary cuts in two is lost: the history and the final response stay
  -- what they were; the same line in one read hands the chunk to the callback. The parts `x` and `y` hold
  -- no newline, `x` alone does not parse, `y` does not look like a line of data, and both together parse
  -- as the chunk and are not the end mark.
  pub process_reads_loses :
      (x y : Text) (c : StreamChunk) (final : Option GateQueryResponse) (w : World)
      → OneLine x
      → OneLine y
      → starts_with data_prefix y ≡ false
      → decode x ≡ none
      → text_eq (x ++ y) done_mark ≡ false
      → decode (x ++ y) ≡ some c
      → (process_reads decode callback ((data_prefix ++ x) ∷ y ∷ []) final w ≡ (ok final, w))
        × ((process_reads decode callback ((data_prefix ++ (x ++ y)) ∷ []) final w).1
            ≡ got_chunk c ∷ w)
  unfolding process_reads deliver
  process_reads_loses x y c final w hx hy no_data no_json no_done whole_json = (
    (let first : process_lines decode callback (split_lines (data_prefix ++ x)) final w
            ≡ (ok final, w) =
          lines-OneLine (data_prefix ++ x) final w (data_line-OneLine x hx)
          ∙ bad_data x final w no_json in
        let second : process_lines decode callback (split_lines y) final w ≡ (ok final, w) =
          lines-OneLine y final w hy ∙ no_data_line y final w no_data in
        rw (first, second)),
    (let whole : process_lines decode callback (split_lines (data_prefix ++ (x ++ y))) final w
            ≡ deliver decode callback (decode (x ++ y)) final w =
          lines-OneLine (data_prefix ++ (x ++ y)) final w
            (data_line-OneLine (x ++ y) (OneLine-append x y hx hy))
          ∙ data_line (x ++ y) final w
          ∙ rw no_done refl in
        let (r, v) = deliver decode callback (decode (x ++ y)) final w in
        ap (λ z. (continue z.0 (λ f u. (ok f, u)) z.1).1) whole
        ∙ ap (λ z. z.1) (continue-pure r v)
        ∙ ap (λ d. (deliver decode callback d final w).1) whole_json),
  )
