-- ===== src/Sdk/Gate/Stream/Outcome.antt =====
-- Where the final response of a stream comes from.
use mathlib.Core.Path.{subst}
use trust_vault.Prelude.{
  ◌≡◌, true, ◌⊎◌, inl, inr, Option, none, some, List, [], ◌∷◌, Text, text_eq, starts_with, drop,
  sym, Option-cases, Bool-cases, ◌≢◌, arith,
}
use trust_vault.Sdk.Types.{GateQueryRequest, GateQueryResponse, StreamChunk}
use trust_vault.Sdk.Errors.{Thrown}
use trust_vault.Sdk.Effect.{
  Env, World, got_chunk, reader_released, fetched, BodyStream, Response, FetchResult, responded,
  rejected, is_ok, lift, finally, Result, ok, throw, Io, continue, ◌>>=◌, fetch,
}
use trust_vault.Sdk.Client.{SecureLensClient}
use trust_vault.Sdk.Gate.Requests.{validate_query_request}
use trust_vault.Sdk.Gate.Stream.{
  is_done, take_final, after_callback, data_prefix, done_mark, at_end, require_final, fail_stream,
  fetched_response, on_response, stream_request, deliver, process_line, process_lines,
  process_reads, split_lines, read_stream, query_stream,
}

-- The history has delivered `r` to the callback, as the final response of a chunk of type 'done'.
abbrev pub Delivered : GateQueryResponse → World → Type 0
Delivered r [] = ⊥
Delivered r (got_chunk c ∷ w) =
    ((is_done c.type ≡ true) × (c.final_response ≡ some r)) ⊎ Delivered r w
Delivered r (e ∷ w) = Delivered r w

abbrev IsSourced : Option GateQueryResponse → World → Type 0
IsSourced none w = Unit
IsSourced (some r) w = Delivered r w

abbrev Sourced : Result (Option GateQueryResponse) × World → Type 0
Sourced (ok f, w) = IsSourced f w
Sourced (throw e, w) = Unit

module _ (decode : Text → Option StreamChunk) (callback : World → StreamChunk → Option Thrown) where
  IsSourced-chunk :
      (c : StreamChunk) (f : Option GateQueryResponse) (w : World)
      → IsSourced f w
      → IsSourced f (got_chunk c ∷ w)
  IsSourced-chunk c none w h = tt
  IsSourced-chunk c (some r) w h = inr h

  take_final_cases :
      (c : StreamChunk) (f : Option GateQueryResponse)
      → (take_final c f ≡ f)
        ⊎ ((r : GateQueryResponse) × (take_final c f ≡ some r)
            × (is_done c.type ≡ true)
            × (c.final_response ≡ some r))
  take_final_cases c f = elim (Option-cases c.final_response) [
    | inl e ↦ inl (ground arith)
    | inr (r, e) ↦ elim (Bool-cases (is_done c.type)) [
      | inl d ↦ inr (r, ground arith, d, e)
      | inr d ↦ inl (ground arith)
    ]
  ]

  take_final-IsSourced :
      (c : StreamChunk) (f : Option GateQueryResponse) (w : World)
      → IsSourced f w
      → IsSourced (take_final c f) (got_chunk c ∷ w)
  take_final-IsSourced c f w h = elim (take_final_cases c f) [
    | inl same ↦ subst (λ o. IsSourced o (got_chunk c ∷ w)) (sym same) (IsSourced-chunk c f w h)
    | inr (r, same, done, final) ↦
        subst (λ o. IsSourced o (got_chunk c ∷ w)) (sym same) (inl (done, final))
  ]

  after_callback-IsSourced :
      (e : Option Thrown) (c : StreamChunk) (f : Option GateQueryResponse) (w : World)
      → IsSourced f w
      → IsSourced (after_callback e c f) (got_chunk c ∷ w)
  after_callback-IsSourced none c f w h = take_final-IsSourced c f w h
  after_callback-IsSourced (some e) c f w h = IsSourced-chunk c f w h

  deliver-Sourced :
      (d : Option StreamChunk) (f : Option GateQueryResponse) (w : World)
      → IsSourced f w
      → Sourced (deliver decode callback d f w)
  unfolding deliver
  deliver-Sourced none f w h = h
  deliver-Sourced (some c) f w h = after_callback-IsSourced (callback w c) c f w h

  continue-Sourced :
      (r : Result (Option GateQueryResponse))
      (k : Option GateQueryResponse → Io (Option GateQueryResponse)) (w : World)
      → ((f : Option GateQueryResponse) (v : World) → IsSourced f v → Sourced (k f v))
      → Sourced (r, w)
      → Sourced (continue r k w)
  continue-Sourced (ok f) k w step h = step f w h
  continue-Sourced (throw e) k w step h = tt

  process_line-Sourced :
      (l : Text) (f : Option GateQueryResponse) (w : World)
      → IsSourced f w
      → Sourced (process_line decode callback l f w)
  unfolding process_line
  process_line-Sourced l f w h = elim (Bool-cases (starts_with data_prefix l)) [
    | inl d ↦ elim (Bool-cases (text_eq (drop 6 l) done_mark)) [
      | inl e ↦ rw (d, e) h
      | inr e ↦ rw (d, e) (deliver-Sourced (decode (drop 6 l)) f w h)
    ]
    | inr d ↦ rw d h
  ]

  process_lines-Sourced :
      (ls : List Text) (f : Option GateQueryResponse) (w : World)
      → IsSourced f w
      → Sourced (process_lines decode callback ls f w)
  unfolding process_lines
  process_lines-Sourced [] f w h = h
  process_lines-Sourced (l ∷ ls) f w h =
      let (r, v) = process_line decode callback l f w in
      continue-Sourced r (process_lines decode callback ls) v (process_lines-Sourced ls)
        (process_line-Sourced l f w h)

  process_reads-Sourced :
      (ts : List Text) (f : Option GateQueryResponse) (w : World)
      → IsSourced f w
      → Sourced (process_reads decode callback ts f w)
  unfolding process_reads
  process_reads-Sourced [] f w h = h
  process_reads-Sourced (t ∷ ts) f w h =
      let ls = split_lines t in
      let (r, v) = process_lines decode callback ls f w in
      continue-Sourced r (process_reads decode callback ts) v (process_reads-Sourced ts)
        (process_lines-Sourced ls f w h)

  finished :
      (p : Result (Option GateQueryResponse)) (v : World) (failure : Option Thrown)
      (r : GateQueryResponse)
      → Sourced (p, v)
      → ((finally (λ _. continue p (at_end failure) v) reader_released >>= require_final) v).0
        ≡ ok r
      → Delivered r
          ((finally (λ _. continue p (at_end failure) v) reader_released >>= require_final) v).1
  finished (ok none) v none r s h = cc
  finished (ok (some q)) v none r s h = subst (λ x. Delivered x v) (ground arith) s
  finished (ok f) v (some e) r s h = cc
  finished (throw e) v failure r s h = cc

  read_stream-Delivered :
      (s : Option BodyStream) (w : World) (r : GateQueryResponse)
      → (read_stream decode callback s w).0 ≡ ok r
      → Delivered r (read_stream decode callback s w).1
  unfolding read_stream
  read_stream-Delivered none w r h = cc
  read_stream-Delivered (some s) w r h =
      let (p, v) = process_reads decode callback s.reads none w in
      finished p v s.failure r (process_reads-Sourced s.reads none w tt) h

  module _ (env : Env) (client : SecureLensClient) where
    fail_stream-ne-ok :
        (response : Response) (w : World) (r : GateQueryResponse)
        → (fail_stream decode callback env client response w).0 ≢ ok r
    fail_stream-ne-ok response w r h = ground arith

    answered :
        (f : FetchResult) (w : World) (r : GateQueryResponse)
        → ((lift (fetched_response decode callback env client f)
              >>= on_response decode callback env client)
            w).0
          ≡ ok r
        → Delivered r
            ((lift (fetched_response decode callback env client f)
                >>= on_response decode callback env client)
              w).1
    answered (rejected e) w r h = cc
    answered (responded x) w r h = elim (Bool-cases (is_ok x)) [
      | inl e ↦ rw e (read_stream-Delivered x.stream w r (rw e at h))
      | inr e ↦ absurd (fail_stream-ne-ok x w r (rw e at h))
    ]

    checked_first :
        (check : Result (Unit {0})) (k : Io GateQueryResponse) (w : World) (r : GateQueryResponse)
        → ((lift check >>= λ _. k) w).0 ≡ ok r
        → ((k w).0 ≡ ok r → Delivered r (k w).1)
        → Delivered r ((lift check >>= λ _. k) w).1
    checked_first (ok u) k w r h d = d h
    checked_first (throw e) k w r h d = cc

    -- `queryStream` returns a response only if a chunk of type 'done' with this final response was
    -- handed to the callback.
    pub query_stream-Delivered :
        (request : GateQueryRequest) (w : World) (r : GateQueryResponse)
        → (query_stream decode callback env client request w).0 ≡ ok r
        → Delivered r (query_stream decode callback env client request w).1
    unfolding query_stream fetch
    query_stream-Delivered request w r h = checked_first (validate_query_request request) _ w r h (
        answered (env.fetch w (stream_request decode callback env client request))
          (fetched (stream_request decode callback env client request) ∷ w) r)
