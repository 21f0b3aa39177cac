-- ===== src/AppApi/Upload.antt =====
-- handler.go: what `presignUpload` asks the storage to sign.
use gateway_runtime.Prelude.{
  String, true, false, ◌≡◌, refl, [], ◌∷◌, Option, none, some, str_eq, Bool-cases, Option-cases,
  inl, inr, ◌⊎◌, ◌*◌,
}
use gateway_runtime.Prelude.Exec.{Exec}
use gateway_runtime.Text.{trim_space}
use gateway_runtime.Duration.{pos, Duration, is_positive, exceeds, minute, positive_or}
use gateway_runtime.Capability.{PresignedRequest, PresignedOperation}
use gateway_runtime.Outbound.{ErrorKind}
use gateway_runtime.Middleware.{Request}
use gateway_runtime.Middleware.Authorization.{Stamp}
use gateway_runtime.AppApi.{
  Api, Json, UploadRequest, presign_upload, validate_object_key, signed_request, operation_answer,
  write_error, emit, ttl_or_default, seconds_of,
}
use gateway_runtime.AppApi.ObjectKey.{IsSafeKey, validate_object_key-IsSafeKey}

ttl_or_default-positive : (ttl : Duration) → is_positive (ttl_or_default ttl) ≡ true
ttl_or_default-positive ttl = elim (Bool-cases (is_positive ttl)) [
  | inl e ↦ rw e e
  | inr e ↦ rw e refl
]

module _ {E W : Type 0} (h : Api E W) (json : Json) (kind_of : E → Option ErrorKind) (stamp : Stamp)
    (sign : PresignedRequest → Exec E W PresignedOperation) (r : Request) (w : W) where
  -- The storage is asked to sign, for a safe key and a positive lifetime within the maximum.
  pub record IsSigned : Type 0 where
    pub body : UploadRequest
    pub key : String
    pub decodes : json.upload_request r ≡ some body
    pub bucket : str_eq (trim_space h.upload_bucket) "" ≡ false
    pub accepted : validate_object_key body.object_key h.upload_prefixes ≡ some key
    pub safe : (key ≡ trim_space body.object_key) × IsSafeKey h.upload_prefixes key
    pub positive : is_positive (signed_request h json kind_of stamp body key).expires_in ≡ true
    pub within :
        exceeds
          (signed_request h json kind_of stamp body key).expires_in
          (pos (positive_or h.max_presign_ttl (15 * minute)))
        ≡ false
    pub answer : presign_upload h json kind_of stamp sign r w ≡ (
        let signed = sign (signed_request h json kind_of stamp body key) w in
        operation_answer h json kind_of stamp r key signed.0 signed.1)

  -- The lifetime of a request is longer than the maximum.
  abbrev pub IsTooLong : UploadRequest → Type 0
  IsTooLong body =
      exceeds (ttl_or_default (seconds_of body.expires_in))
        (pos (positive_or h.max_presign_ttl (15 * minute)))
      ≡ true

  -- why a request is refused, with the key that is audited: there is none yet before the lifetime is looked at
  abbrev pub IsCause : String → String → Type 0
  IsCause reason key =
      ((json.upload_request r ≡ none) × (reason ≡ "invalid_request") × (key ≡ ""))
      ⊎ ((body : UploadRequest) × (json.upload_request r ≡ some body)
          × ((validate_object_key body.object_key h.upload_prefixes ≡ none)
              ⊎ (str_eq (trim_space h.upload_bucket) "" ≡ true))
          × (reason ≡ "invalid_object_key")
          × (key ≡ ""))
      ⊎ ((body : UploadRequest) × (json.upload_request r ≡ some body)
          × (validate_object_key body.object_key h.upload_prefixes ≡ some key)
          × IsTooLong body
          × (reason ≡ "expiry_too_long"))

  -- The storage is not asked: beside the answer there is the audit event only.
  pub record IsRefused : Type 0 where
    pub reason : String
    pub key : String
    pub cause : IsCause reason key
    pub answer : presign_upload h json kind_of stamp sign r w ≡ (
      write_error h json kind_of stamp 400 reason,
      emit h json kind_of stamp r "storage.presign_put" "object" key "deny" 400
          (("reason", reason) ∷ [])
          w,
    )

  -- `presignUpload` asks the storage to sign exactly where the body decodes, `validateObjectKey` accepts
  -- its key, a bucket is configured, and the lifetime (5 minutes where it is not positive) is within the
  -- maximum (15 minutes where none is configured). The key signed is then safe and below an allowed prefix,
  -- the lifetime is positive, and the answer is the storage's result. In every other case it answers 400
  -- with the reason and asks the storage for nothing: beside the answer there is the audit event only.
  pub presign_upload-IsSigned : IsSigned ⊎ IsRefused
  unfolding presign_upload
  presign_upload-IsSigned = elim (Option-cases (json.upload_request r)) [
    | inl e ↦ inr (record {
      reason = "invalid_request";
      key = "";
      cause = inl (e, refl, refl);
      answer = rw e refl;
    })
    | inr (body, e) ↦ elim (Option-cases (validate_object_key body.object_key h.upload_prefixes)) [
      | inl bad ↦ inr (record {
        reason = "invalid_object_key";
        key = "";
        cause = inr (inl (body, e, inl bad, refl, refl));
        answer = rw (e, bad) refl;
      })
      | inr (key, good) ↦ elim (Bool-cases (str_eq (trim_space h.upload_bucket) "")) [
        | inl blank ↦ inr (record {
          reason = "invalid_object_key";
          key = "";
          cause = inr (inl (body, e, inr blank, refl, refl));
          answer = rw (e, good, blank) refl;
        })
        | inr given ↦
            elim (Bool-cases (
              exceeds (ttl_or_default (seconds_of body.expires_in))
                (pos (positive_or h.max_presign_ttl (15 * minute))))) [
                  | inl long ↦ inr (record {
                    reason = "expiry_too_long";
                    key = key;
                    cause = inr (inr (body, e, good, long, refl));
                    answer = rw (e, good, given, long) refl;
                  })
                  | inr short ↦ inl (record {
                    body = body;
                    key = key;
                    decodes = e;
                    bucket = given;
                    accepted = good;
                    safe = validate_object_key-IsSafeKey body.object_key h.upload_prefixes key good;
                    positive = ttl_or_default-positive (seconds_of body.expires_in);
                    within = short;
                    answer = rw (e, good, given, short) refl;
                  })
                ]
      ]
    ]
  ]
