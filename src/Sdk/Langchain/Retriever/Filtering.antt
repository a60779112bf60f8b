-- ===== src/Sdk/Langchain/Retriever/Filtering.antt =====
-- What the secured retriever lets through.
use trust_vault.Prelude.{
  ℕ, ◌≡◌, refl, ap, ◌∙◌, Bool, true, false, some, List, [], ◌∷◌, Text, map, filter, arith, ◌||◌,
  ◌&&◌, not, leb, if◌then◌else◌, suc,
}
use trust_vault.Sdk.Types.{
  SensitivityLevel, public, internal, confidential, restricted, top_secret, ClassificationResult,
}
use trust_vault.Sdk.Effect.{Env, World, Result, ok, throw, Io, pure}
use trust_vault.Sdk.Errors.{Thrown}
use trust_vault.Sdk.Client.{SecureLensClient}
use trust_vault.Sdk.Gate.Calls.{Wire, classify_batch}
use trust_vault.Sdk.Gate.Calls.Guarded.{classify_batch_empty}
use trust_vault.Sdk.Langchain.Retriever.{
  Document, SecureLensRetrieverOptions, sensitivity_of, enrich, within, filtered, classified,
  get_relevant_documents,
}

-- The order of the levels.
abbrev pub rank : SensitivityLevel → ℕ
rank public = 0
rank internal = 1
rank confidential = 2
rank restricted = 3
rank top_secret = 4

within-rank :
    (max : SensitivityLevel) (doc : Document)
    → within max doc ≡ leb (rank (sensitivity_of doc)) (rank max)
unfolding within
within-rank max doc = ground arith

filter-ext :
    {A : Type 0} (p q : A → Bool) (xs : List A) → ((a : A) → p a ≡ q a) → filter p xs ≡ filter q xs
filter-ext p q [] h = refl
filter-ext p q (x ∷ xs) h = rw (h x, filter-ext p q xs h)

filtered_max :
    (options : SecureLensRetrieverOptions) (max : SensitivityLevel) (docs : List Document)
    → options.filter_sensitive ≡ true
    → options.max_sensitivity ≡ some max
    → filtered options docs ≡ filter (within max) docs
filtered_max options max docs f m = ground arith

not_idle :
    (options : SecureLensRetrieverOptions)
    → (options.classify_documents || options.filter_sensitive) ≡ true
    → (not options.classify_documents && not options.filter_sensitive) ≡ false
not_idle options o = ground arith

-- The documents with the classifications at their positions.
abbrev labelled : List ClassificationResult → List Document → List Document
labelled results [] = []
labelled [] (doc ∷ docs) =
    record doc { secure_lens = some (record { classifications = []; sensitivity = public }) }
    ∷ labelled [] docs
labelled (r ∷ results) (doc ∷ docs) =
    record doc {
      secure_lens =
          some
            (record { classifications = r.classifications; sensitivity = r.overall_sensitivity });
    }
    ∷ labelled results docs

-- The documents that do not rank above the maximum by the classification at their position; one without
-- a classification is public.
abbrev pub kept : SensitivityLevel → List ClassificationResult → List Document → List Document
kept max results [] = []
kept max [] (doc ∷ docs) = labelled [] (doc ∷ docs)
kept max (r ∷ results) (doc ∷ docs) =
    let rest = kept max results docs in
    if leb (rank r.overall_sensitivity) (rank max)
    then record doc {
      secure_lens =
          some
            (record { classifications = r.classifications; sensitivity = r.overall_sensitivity });
    }
      ∷ rest
    else rest

enrich-empty : (i : ℕ) (docs : List Document) → enrich [] i docs ≡ labelled [] docs
unfolding enrich
enrich-empty i [] = refl
enrich-empty i (doc ∷ docs) = rw (enrich-empty (suc i) docs) refl

enrich-suc :
    (r : ClassificationResult) (results : List ClassificationResult) (i : ℕ) (docs : List Document)
    → enrich (r ∷ results) (suc i) docs ≡ enrich results i docs
unfolding enrich
enrich-suc r results i [] = refl
enrich-suc r results i (doc ∷ docs) = rw (enrich-suc r results (suc i) docs) refl

enrich-labelled :
    (results : List ClassificationResult) (docs : List Document)
    → enrich results 0 docs ≡ labelled results docs
unfolding enrich
enrich-labelled [] docs = enrich-empty 0 docs
enrich-labelled (r ∷ results) [] = refl
enrich-labelled (r ∷ results) (doc ∷ docs) =
    rw (enrich-suc r results 0 docs ∙ enrich-labelled results docs) refl

lowest : (max : SensitivityLevel) → leb 0 (rank max) ≡ true
lowest max = ground arith

filter_unlabelled :
    (max : SensitivityLevel) (docs : List Document)
    → filter (λ doc. leb (rank (sensitivity_of doc)) (rank max)) (labelled [] docs)
      ≡ labelled [] docs
filter_unlabelled max [] = refl
filter_unlabelled max (doc ∷ docs) = rw (lowest max, filter_unlabelled max docs) refl

filter-labelled :
    (max : SensitivityLevel) (results : List ClassificationResult) (docs : List Document)
    → filter (λ doc. leb (rank (sensitivity_of doc)) (rank max)) (labelled results docs)
      ≡ kept max results docs
filter-labelled max [] [] = refl
filter-labelled max [] (doc ∷ docs) = filter_unlabelled max (doc ∷ docs)
filter-labelled max (r ∷ results) [] = refl
filter-labelled max (r ∷ results) (doc ∷ docs) = rw (filter-labelled max results docs) refl

filter-enrich :
    (max : SensitivityLevel) (results : List ClassificationResult) (docs : List Document)
    → filter (λ doc. leb (rank (sensitivity_of doc)) (rank max)) (enrich results 0 docs)
      ≡ kept max results docs
filter-enrich max results docs =
    ap (filter (λ doc. leb (rank (sensitivity_of doc)) (rank max))) (enrich-labelled results docs)
    ∙ filter-labelled max results docs

module _ (env : Env) (wire : Wire) (client : SecureLensClient)
    (base : Text → Io (List Document)) where
  module _ (options : SecureLensRetrieverOptions) (max : SensitivityLevel)
      (f : options.filter_sensitive ≡ true) (m : options.max_sensitivity ≡ some max) where
    -- `if (!classifyDocuments && !filterSensitive)` is not taken.
    goes_on :
        (documents : List Document)
        → (if not options.classify_documents && not options.filter_sensitive
            then pure documents
            else classified env wire client base options documents)
          ≡ classified env wire client base options documents
    goes_on documents = ground arith

  -- With a filter and a maximum, where the underlying retriever and the classification both answer,
  -- the documents returned are exactly those found, in their order, that do not rank above the maximum
  -- by the classification at their position, each with this classification; a document without one
  -- counts as public.
  pub get_relevant_documents_exact :
      (options : SecureLensRetrieverOptions) (max : SensitivityLevel) (query : Text)
      (documents : List Document) (results : List ClassificationResult) (w w1 w2 : World)
      → options.filter_sensitive ≡ true
      → options.max_sensitivity ≡ some max
      → base query w ≡ (ok documents, w1)
      → classify_batch env wire client (map (λ doc. doc.page_content) documents) w1
        ≡ (ok results, w2)
      → get_relevant_documents env wire client base options query w
        ≡ (ok (kept max results documents), w2)
  unfolding get_relevant_documents classified
  get_relevant_documents_exact options max query documents results w w1 w2 f m found sorted =
      let enriched = enrich results 0 documents in
      let same : filtered options enriched ≡ kept max results documents =
        filtered_max options max enriched f m
        ∙ filter-ext (within max) (λ doc. leb (rank (sensitivity_of doc)) (rank max)) enriched
            (within-rank max)
        ∙ filter-enrich max results documents in
      rw (found, goes_on options max f m documents, sorted)
        (ap {B = Result (List Document) × World} (λ docs. (ok docs, w2)) same)

  -- Where the underlying retriever finds nothing, the secured one throws, unless it is to do nothing
  -- at all: an empty batch is refused.
  get_relevant_documents_empty :
      (options : SecureLensRetrieverOptions) (query : Text) (w w1 : World)
      → base query w ≡ (ok [], w1)
      → (options.classify_documents || options.filter_sensitive) ≡ true
      → (e : Thrown) × (get_relevant_documents env wire client base options query w ≡ (throw e, w1))
  unfolding get_relevant_documents classified
  get_relevant_documents_empty options query w w1 h o =
      let (e, refused) = classify_batch_empty env wire client w1 in
      (e, rw (h, not_idle options o, refused))
