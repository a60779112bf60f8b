-- ===== src/Sdk/Effect.antt =====
-- Effects of the SDK. The world is the list of what the SDK has done so far, the latest first; the
-- environment answers each call by a function of that history. An action gives a value or throws,
-- and what it did before a throw stays done.
pub mod Trace
use trust_vault.Prelude.{
  ℕ, String, Bool, true, false, Option, none, some, List, [], ◌∷◌, ◌++◌, Text, text, decimal, slice,
  leb, ltb, ◌&&◌, if◌then◌else◌,
}
use trust_vault.Sdk.Value.{Value, Fields}
use trust_vault.Sdk.Types.{
  Classification, AppliedPolicy, GateInterceptResponse, SecureLensContext, StreamChunk,
}
use trust_vault.Sdk.Errors.{JsError, Thrown}

-- The abort signal of a `fetch`: the caller's, or that of the request's timer.
pub data Signal : Type 0 where
  caller timer : Signal

pub record FetchRequest : Type 0 where
  pub url : Text
  pub method : String
  pub headers : Fields
  pub body : Option Text
  pub signal : Option Signal

pub data Event : Type 0 where
  logged : Text → Value → Event
  warned : Text → Thrown → Event
  slept timer_set : ℕ → Event
  timer_cleared reader_released : Event
  fetched : FetchRequest → Event
  got_chunk : StreamChunk → Event
  got_classifications : List Classification → String → Event
  applied_policy : AppliedPolicy → Event
  blocked : GateInterceptResponse → Event
  attached : SecureLensContext → Event
  json_wrapped called_next : Event
  sent : Option ℕ → Value → Event

abbrev pub World : Type 0
World = List Event

-- A read of a body gives its text or fails.
pub data BodyRead : Type 0 where
  read_text : Text → BodyRead
  read_failed : Thrown → BodyRead

-- The texts that the reader of a streamed body gives, and the error that ends it, if one does.
pub record BodyStream : Type 0 where
  pub reads : List Text
  pub failure : Option Thrown

pub record Response : Type 0 where
  pub status : ℕ
  pub content_type : Option Text
  pub body : BodyRead
  pub stream : Option BodyStream

-- `response.ok`
abbrev pub is_ok : Response → Bool
is_ok r = leb 200 r.status && ltb r.status 300

pub data FetchResult : Type 0 where
  responded : Response → FetchResult
  rejected : Thrown → FetchResult

pub data Parsed : Type 0 where
  parsed : Value → Parsed
  syntax_error : JsError → Parsed

-- What is not in the repository: the network, the clock, randomness and the JSON codec.
-- `random` is `Math.random().toString(36)`.
pub record Env : Type 0 where
  pub fetch : World → FetchRequest → FetchResult
  pub now : World → ℕ
  pub random : World → Text
  pub parse_json : Text → Parsed
  pub stringify : Value → Text

pub data Result {ℓ} (A : Type ℓ) : Type ℓ where
  ok : A → Result A
  throw : Thrown → Result A

abbrev pub Io {ℓ} : Type ℓ → Type ℓ
Io A = World → Result A × World

infixl 5 ◌>>=◌ ◌>>◌
module _ {ℓ κ} {A : Type ℓ} {B : Type κ} where
  abbrev pub continue : Result A → (A → Io B) → Io B
  continue (ok a) f w = f a w
  continue (throw e) f w = (throw e, w)

  abbrev pub ◌>>=◌ : Io A → (A → Io B) → Io B
  ◌>>=◌ m f w = let (r, w') = m w in continue r f w'

abbrev pub ◌>>◌ {ℓ} : {B : Type ℓ} → Io (Unit {0}) → Io B → Io B
m >> k = m >>= λ _. k

module _ {ℓ} {A : Type ℓ} where
  abbrev pub pure : A → Io A
  pure a w = (ok a, w)

  abbrev pub lift : Result A → Io A
  lift r w = (r, w)

  abbrev pub raise : Thrown → Io A
  raise e w = (throw e, w)

  abbrev pub recover : Result A → (Thrown → Io A) → Io A
  recover (ok a) handler w = (ok a, w)
  recover (throw e) handler w = handler e w

  -- `try { m } catch (error) { handler }`
  abbrev pub catch : Io A → (Thrown → Io A) → Io A
  catch m handler w = let (r, w') = m w in recover r handler w'

  -- `try { m } finally { e }`, where the last block only records an event.
  abbrev pub finally : Io A → Event → Io A
  finally m e w = let (r, w') = m w in (r, e ∷ w')

abbrev pub emit : Event → Io (Unit {0})
emit e w = (ok tt, e ∷ w)

-- What a callback does that throws nothing, or that throws an error.
abbrev pub outcome : Option Thrown → Io (Unit {0})
outcome none = pure tt
outcome (some e) = raise e

abbrev pub when : Bool → Io (Unit {0}) → Io (Unit {0})
when true m w = m w
when false m w = (ok tt, w)

-- `fetch(…)`: the call is recorded, then the environment answers.
unfoldable pub fetch : Env → FetchRequest → Io FetchResult
fetch env request w = (ok (env.fetch w request), fetched request ∷ w)

-- `generateRequestId`
unfoldable pub generate_request_id : Env → Io Text
generate_request_id env w =
    (ok (text "req_" ++ (decimal (env.now w) ++ (text "_" ++ slice 2 11 (env.random w)))), w)
