-- ===== src/Handler/CardRequests.antt =====
-- GET, PUT and DELETE of a card in internal/server/handler.go.
use go_contactd.Prelude.{
  not, leb, Bytes, Bool, true, false, List, [], ◌∷◌, ◌++◌, Option, none, some, lit, if◌then◌else◌,
  length,
}
use go_contactd.Strings.{is_blank, format_int}
use go_contactd.Store.Tables.{Database}
use go_contactd.Carddav.Objects.{
  get_address_object_with_raw, put_address_object, delete_address_object,
}
use go_contactd.Handler.{
  equal_fold, validate_vcard_payload_bytes, EnvelopeError, validate_single_vcard_envelope,
}
use go_contactd.Handler.Requests.{read_body}
use go_contactd.Handler.Reports.{raw_or_encoded}
use go_contactd.Handler.Propfind.{accept}
use go_contactd.Handler.Http.{
  HttpRequest, HttpResponse, HandlerOptions, Env, ◌>>=◌, ◌>>◌, pure, halt, Handler, backend,
  only_status, error_response, status_error, write_invalid_body_or_too_large, or_backend_error,
}

abbrev etag_header : Bytes → List (Bytes × Bytes)
etag_header [] = []
etag_header (c ∷ etag) = (lit "ETag", c ∷ etag) ∷ []

-- A check that has passed, or the response to one that has not.
abbrev pub require : Bool → HttpResponse → Handler (Unit {0})
require true r = pure tt
require false r = halt r

abbrev pub or_response : {A : Type 0} → HttpResponse → Option A → Handler A
or_response r none = halt r
or_response r (some a) = pure a

abbrev no_error : Option EnvelopeError → Bool
no_error none = true
no_error (some e) = false

abbrev is_one_uid : List Bytes → Bool
is_one_uid (uid ∷ []) = not (is_blank uid)
is_one_uid _ = false

module _ {VCard : Type 0} (env : Env VCard) where
  unfoldable pub is_vcard_content_type : Bytes → Bool
  is_vcard_content_type v = if is_blank v then false else elim (env.parse_media_type v) [
    | none ↦ false
    | some media_type ↦ equal_fold media_type (lit "text/vcard")
  ]

  unfoldable pub validate_single_uid_property : VCard → Bool
  validate_single_uid_property card = is_one_uid (env.codec.uids card)

  -- The first call of Decode returns a card and the second io.EOF.
  abbrev only_card : List (Option VCard) → Option VCard
  only_card (some card ∷ []) = if validate_single_uid_property card then some card else none
  only_card _ = none

  -- `none` is an error.
  unfoldable pub decode_single_card_for_put : Bytes → Option VCard
  decode_single_card_for_put raw =
      if not (validate_vcard_payload_bytes raw)
      then none
      else if not (no_error (validate_single_vcard_envelope raw))
      then none
      else only_card (env.decodes raw)

  module _ (opts : HandlerOptions) (ctx : Option Bytes) where
    unfoldable pub handle_card_get : HttpRequest → Handler HttpResponse
    handle_card_get r = do
      (ao, got) ←
          or_backend_error env (backend (get_address_object_with_raw (env.codec) ctx r.path))
      raw ←
          or_response (error_response (lit "invalid vcard") 500) (raw_or_encoded env ao (some got))
      pure (record {
        status = 200;
        headers =
            (lit "Content-Type", lit "text/vcard")
            ∷ (etag_header ao.etag ++ (lit "Content-Length", format_int (length raw)) ∷ []);
        body = raw;
      })

    -- `meanwhile` is what other requests commit between the backend's read and its write.
    unfoldable pub handle_card_put :
        (meanwhile : Database → Database) → HttpRequest → Handler HttpResponse
    handle_card_put meanwhile r = do
      require (is_vcard_content_type r.content_type)
          (error_response (lit "unsupported media type") 415)
      raw ←
          accept (λ e. write_invalid_body_or_too_large e (lit "invalid vcard"))
            (read_body opts.request_max_bytes r.body)
      require (leb (length raw) opts.vcard_max_bytes) (status_error 413)
      card ← or_response (error_response (lit "invalid vcard") 400) (decode_single_card_for_put raw)
      (ao, created) ← or_backend_error env (
          backend (
            put_address_object (env.codec) ctx env.sha256 env.now env.hook r.path card
              (some (record {
                if_match = env.conditional_match r.if_match;
                if_none_match = env.conditional_match r.if_none_match;
              }))
              meanwhile))
      pure (record {
        status = if created then 201 else 204;
        headers = etag_header ao.etag;
        body = [];
      })

    -- The ETag of the card, if If-Match is set and matches it.
    unfoldable pub matched_current_etag : HttpRequest → Handler (Option Bytes)
    matched_current_etag r =
        let if_match = env.conditional_match r.if_match in
        if not if_match.is_set then pure none else do
          (ao, raw) ←
              or_backend_error env (backend (get_address_object_with_raw (env.codec) ctx r.path))
          current ← or_response (error_response (lit "invalid ETag") 500) (env.etag_of ao.etag)
          is_match ←
              or_response (error_response (lit "bad If-Match") 400) (if_match.match_etag current)
          require is_match (status_error 412)
          pure (some current)

    unfoldable pub handle_card_delete : HttpRequest → Handler HttpResponse
    handle_card_delete r = do
      etag ← matched_current_etag r
      or_backend_error env (backend (delete_address_object ctx env.now r.path etag))
      pure (only_status 204)
