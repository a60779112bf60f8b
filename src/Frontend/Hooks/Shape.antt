-- ===== src/Frontend/Hooks/Shape.antt =====
-- What the hooks hand to the query library: a query's key and request, and what a mutation sends,
-- marks as stale and shows.
use trust_vault.Prelude.{ℕ, String, Bool, true, Option, none, some, List, [], ◌∷◌, ◌++◌, Text, text}
use trust_vault.Sdk.Value.{Value, undefined, str, Fields, member, arr, nil}
use trust_vault.Frontend.Session.{ErrorResponse, or_else}

-- A part of a query key; `missing` is `undefined`.
pub data KeyPart : Type 0 where
  word : Text → KeyPart
  number : ℕ → KeyPart
  object : Fields → KeyPart
  missing : KeyPart

abbrev pub Key : Type 0
Key = List KeyPart

abbrev pub name : String → KeyPart
name s = word (text s)

abbrev pub optional : Option Text → KeyPart
optional none = missing
optional (some t) = word t

-- A path as the hook's template writes it: what stands in the source, and what is put in.
pub data Segment : Type 0 where
  fixed : String → Segment
  param : Text → Segment

abbrev pub ApiPath : Type 0
ApiPath = List Segment

abbrev pub segment_text : Segment → Text
segment_text (fixed s) = text s
segment_text (param t) = t

-- The path as it is sent.
abbrev pub url : ApiPath → Text
url [] = []
url (s ∷ path) = text "/" ++ (segment_text s ++ url path)

-- `search` is what the template appends to the path, `config` the second argument of `api.get`, and
-- `read` what the query function makes of the answer's data. `retry` counts repetitions.
pub record Query : Type 0 where
  pub key : Key
  pub path : ApiPath
  pub search : Text
  pub config : Value
  pub enabled : Bool
  pub refetch_ms : Option ℕ
  pub retry : ℕ
  pub read : Value → Value

-- A query with the defaults of the library and of components/providers.tsx.
abbrev pub query : Key → ApiPath → Query
query key path = record {
  key = key;
  path = path;
  search = [];
  config = undefined;
  enabled = true;
  refetch_ms = none;
  retry = 1;
  read = λ v. v;
}

pub data Toast : Type 0 where
  success error : Value → Toast
  info : String → Toast

-- An invalidated key is a list of strings. A body that is not given is `undefined`.
pub record Mutation : Type 0 where
  pub method : String
  pub path : ApiPath
  pub body : Value
  pub invalidates : List (List Text)
  pub on_success : Value → List Toast
  pub on_error : Option ErrorResponse → List Toast

abbrev pub mutation : String → ApiPath → Value → Mutation
mutation method path body = record {
  method = method;
  path = path;
  body = body;
  invalidates = [];
  on_success = λ v. [];
  on_error = λ e. [];
}

abbrev pub done : String → Value → List Toast
done message answer = success (str (text message)) ∷ []

-- `toast.error(error.response?.data?.error || fallback)`
abbrev pub error_or : String → Option ErrorResponse → List Toast
error_or fallback none = error (str (text fallback)) ∷ []
error_or fallback (some response) =
    error (or_else (member "error" response.content) (str (text fallback))) ∷ []

-- `data ?? []`
abbrev pub or_empty : Value → Value
or_empty Value.undefined = arr nil
or_empty Value.null = arr nil
or_empty v = v

-- `Array.isArray(data) ? data : []`
abbrev pub array_or_empty : Value → Value
array_or_empty (arr xs) = arr xs
array_or_empty v = arr nil
