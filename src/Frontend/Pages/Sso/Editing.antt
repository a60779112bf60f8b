-- ===== src/Frontend/Pages/Sso/Editing.antt =====
-- What is sent of a provider that is opened in the form and saved without a change.
use trust_vault.Prelude.{
  ℕ, ◌≡◌, ◌≢◌, refl, ap, ap₂, ◌∙◌, true, List, [], ◌∷◌, some, Text, text, truthy_text, filter,
  split_on, onto_first, trim, count, split_on_before, split_on_alone, map, All, arith,
}
use trust_vault.Frontend.Pages.Sso.{
  SsoProvider, SsoRequest, given_or, join_scopes, scopes_text, open_form, read_scopes, payload,
  handle_submit,
}

-- A scope without a comma, without white space at its ends, and not empty.
pub record IsScope (s : Text) : Type 0 where
  pub no_comma : count 44 s ≡ 0
  pub is_trimmed : trim s ≡ s
  pub is_given : truthy_text s ≡ true

onto_first_some : (c : ℕ) (parts : List Text) → onto_first c parts ≢ []
onto_first_some c [] e = ground (arith, e)
onto_first_some c (p ∷ parts) e = ground (arith, e)

split_on_some : (sep : ℕ) (s : Text) → split_on sep s ≢ []
unfolding split_on
split_on_some sep [] e = ground (arith, e)
split_on_some sep (c ∷ s) e = ground (arith, e, onto_first_some c (split_on sep s))

trim_space : (s : Text) → trim (32 ∷ s) ≡ trim s
unfolding trim
trim_space s = refl

map-onto_first : (parts : List Text) → parts ≢ [] → map trim (onto_first 32 parts) ≡ map trim parts
map-onto_first [] h = absurd (h refl)
map-onto_first (p ∷ parts) h = ap (λ t. t ∷ map trim parts) (trim_space p)

split_on_space : (s : Text) → map trim (split_on 44 (32 ∷ s)) ≡ map trim (split_on 44 s)
unfolding split_on
split_on_space s = map-onto_first (split_on 44 s) (split_on_some 44 s)

split_on-join_scopes :
    (s : Text) (scopes : List Text)
    → All IsScope (s ∷ scopes)
    → map trim (split_on 44 (join_scopes (s ∷ scopes))) ≡ s ∷ scopes
split_on-join_scopes s [] h =
    ap (map trim) (split_on_alone 44 s h.0.no_comma) ∙ ap (λ t. t ∷ []) h.0.is_trimmed
split_on-join_scopes s (t ∷ scopes) h =
    ap (map trim) (split_on_before 44 s (32 ∷ join_scopes (t ∷ scopes)) h.0.no_comma)
    ∙ ap₂ (λ u us. u ∷ us) h.0.is_trimmed
        (split_on_space (join_scopes (t ∷ scopes)) ∙ split_on-join_scopes t scopes h.1)

filter-All : (scopes : List Text) → All IsScope scopes → filter truthy_text scopes ≡ scopes
filter-All [] h = refl
filter-All (s ∷ scopes) h = ground (arith, h.0.is_given, filter-All scopes h.1)

read_scopes-join_scopes :
    (s : Text) (scopes : List Text)
    → All IsScope (s ∷ scopes)
    → read_scopes (join_scopes (s ∷ scopes)) ≡ s ∷ scopes
unfolding read_scopes
read_scopes-join_scopes s scopes h =
    ap (filter truthy_text) (split_on-join_scopes s scopes h) ∙ filter-All (s ∷ scopes) h

join_scopes_given :
    (s : Text) (scopes : List Text)
    → truthy_text s ≡ true
    → truthy_text (join_scopes (s ∷ scopes)) ≡ true
join_scopes_given [] scopes h = ground (arith, h)
join_scopes_given (c ∷ s) [] h = refl
join_scopes_given (c ∷ s) (t ∷ scopes) h = refl

-- A provider that is opened in the form and saved without a change is sent to its own address with its
-- name, its type, whether it is enabled, its issuer, its client id, the three addresses of its identity
-- provider, its role, whether it creates users, and its scopes, where it has a role and scopes that are
-- not empty, have no comma and no white space at their ends; the client secret and the certificate, with
-- which the form does not start, are sent as empty texts, and nothing else is sent.
pub handle_submit-open_form :
    (provider : SsoProvider) (s : Text) (scopes : List Text)
    → provider.scopes ≡ some (s ∷ scopes)
    → All IsScope (s ∷ scopes)
    → truthy_text provider.default_role ≡ true
    → handle_submit (some provider) (open_form (some provider))
      ≡ SsoRequest.put provider.id (record {
        form = record {
          name = provider.name;
          type = provider.type;
          enabled = provider.enabled;
          issuer_url = provider.issuer_url;
          client_id = provider.client_id;
          client_secret = [];
          scopes = join_scopes (s ∷ scopes);
          idp_metadata_url = provider.idp_metadata_url;
          idp_entity_id = provider.idp_entity_id;
          idp_sso_url = provider.idp_sso_url;
          idp_certificate = [];
          default_role = provider.default_role;
          auto_create_users = provider.auto_create_users;
        };
        scopes = s ∷ scopes;
      })
unfolding handle_submit payload open_form
handle_submit-open_form provider s scopes e h r =
    let shown : scopes_text provider.scopes ≡ join_scopes (s ∷ scopes) =
      ap scopes_text e ∙ ground (arith, join_scopes_given s scopes h.0.is_given) in
    let role : given_or provider.default_role (text "user") ≡ provider.default_role =
      ground (arith, r) in
    ap₂
      (λ t d.
        SsoRequest.put provider.id
          (payload (record (open_form (some provider)) { scopes = t; default_role = d })))
      shown role
    ∙ ap
        (λ found. SsoRequest.put provider.id (record {
          form = record (open_form (some provider)) {
            scopes = join_scopes (s ∷ scopes);
            default_role = provider.default_role;
          };
          scopes = found;
        }))
        (read_scopes-join_scopes s scopes h)
