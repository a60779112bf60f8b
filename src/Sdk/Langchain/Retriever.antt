-- ===== src/Sdk/Langchain/Retriever.antt =====
-- langchain.ts: `createSecureLensRetriever`, which classifies the documents of another retriever and
-- filters them by sensitivity.
pub mod Filtering
use trust_vault.Prelude.{
  ℕ, zero, suc, Bool, true, false, not, ◌&&◌, ◌||◌, Option, none, some, get_or, List, [], ◌∷◌, map,
  Text, get_elem?, filter, leb, if◌then◌else◌,
}
use trust_vault.Sdk.Value.{Fields}
use trust_vault.Sdk.Types.{
  SensitivityLevel, public, internal, confidential, restricted, top_secret, Classification,
  ClassificationResult,
}
use trust_vault.Sdk.Effect.{Env, Io, ◌>>=◌, pure}
use trust_vault.Sdk.Client.{SecureLensClient}
use trust_vault.Sdk.Gate.Calls.{Wire, classify_batch}

-- `metadata.secureLens`
pub record SecureLensMetadata : Type 0 where
  pub classifications : List Classification
  pub sensitivity : SensitivityLevel

-- The metadata of a document: its property `secureLens`, and the others.
pub record Document : Type 0 where
  pub page_content : Text
  pub metadata : Fields
  pub secure_lens : Option SecureLensMetadata

-- `maxSensitivity` is one of the first four levels.
pub record SecureLensRetrieverOptions : Type 0 where
  pub classify_documents : Bool
  pub filter_sensitive : Bool
  pub max_sensitivity : Option SensitivityLevel

abbrev pub sensitivity_order : List SensitivityLevel
sensitivity_order = public ∷ internal ∷ confidential ∷ restricted ∷ top_secret ∷ []

abbrev same_level : SensitivityLevel → SensitivityLevel → Bool
same_level public public = true
same_level internal internal = true
same_level confidential confidential = true
same_level restricted restricted = true
same_level top_secret top_secret = true
same_level _ _ = false

-- `levels.indexOf(level)`; `none` is -1.
abbrev next_index : Option ℕ → Option ℕ
next_index none = none
next_index (some i) = some (suc i)

index_of : SensitivityLevel → List SensitivityLevel → Option ℕ
index_of level [] = none
index_of level (l ∷ ls) =
    let rest = next_index (index_of level ls) in if same_level l level then some 0 else rest

-- `i <= j` on results of `indexOf`.
abbrev index_le : Option ℕ → Option ℕ → Bool
index_le none j = true
index_le (some i) none = false
index_le (some i) (some j) = leb i j

abbrev metadata_of : Option ClassificationResult → SecureLensMetadata
metadata_of none = record { classifications = []; sensitivity = public }
metadata_of (some r) = record {
  classifications = r.classifications;
  sensitivity = r.overall_sensitivity;
}

-- `documents.map((doc, i) => …)`, from index `i` on.
unfoldable pub enrich : List ClassificationResult → ℕ → List Document → List Document
enrich results i [] = []
enrich results i (doc ∷ docs) =
    record doc { secure_lens = some (metadata_of (get_elem? results i)) }
    ∷ enrich results (suc i) docs

-- `doc.metadata.secureLens?.sensitivity ?? 'public'`
abbrev pub sensitivity_of : Document → SensitivityLevel
sensitivity_of doc = elim doc.secure_lens [ none ↦ public | some m ↦ m.sensitivity ]

within : SensitivityLevel → Document → Bool
unfolding index_of
within max doc =
    index_le (index_of (sensitivity_of doc) sensitivity_order) (index_of max sensitivity_order)

abbrev filtered : SecureLensRetrieverOptions → List Document → List Document
filtered options docs = elim options.max_sensitivity [
  | none ↦ docs
  | some max ↦ if options.filter_sensitive then filter (within max) docs else docs
]

module _ (env : Env) (wire : Wire) (client : SecureLensClient) (base : Text → Io (List Document))
    (options : SecureLensRetrieverOptions) where
  pub classified : List Document → Io (List Document)
  unfolding enrich within
  classified documents = do
    results ← classify_batch env wire client (map (λ doc. doc.page_content) documents)
    pure (filtered options (enrich results 0 documents))

  unfoldable pub get_relevant_documents : Text → Io (List Document)
  unfolding classified
  get_relevant_documents query = do
    documents ← base query
    (if not options.classify_documents && not options.filter_sensitive
        then pure documents
        else classified documents)
