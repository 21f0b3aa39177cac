-- ===== src/AppApi/Tests.antt =====
-- Keys, and an upload that the storage signs.
use gateway_runtime.Prelude.{ℕ, ◌≡◌, refl, String, List, [], ◌∷◌, Option, none, some, ok, err, ◌⊎◌}
use gateway_runtime.Prelude.Exec.{Exec}
use gateway_runtime.Text.{trim_space}
use gateway_runtime.Duration.{pos, negsuc}
use gateway_runtime.Session.{not_found}
use gateway_runtime.Capability.{PresignedRequest, PresignedOperation}
use gateway_runtime.Outbound.{ErrorKind}
use gateway_runtime.Middleware.{Request}
use gateway_runtime.Middleware.Authorization.{Stamp}
use gateway_runtime.AppApi.{
  Api, Json, UploadRequest, validate_object_key, seconds_of, presign_upload,
}
use gateway_runtime.AppApi.ObjectKey.{IsSafeKey, validate_object_key-IsSafeKey}
use gateway_runtime.AppApi.Upload.{IsSigned, IsRefused, presign_upload-IsSigned}

abbrev prefixes : List String
prefixes = "/uploads/" ∷ []

accepted : validate_object_key " uploads/a/b.png" prefixes ≡ some "uploads/a/b.png"
unfolding validate_object_key
accepted = refl

refused :
    (validate_object_key "uploads/../etc" prefixes ≡ none)
    × (validate_object_key "uploads//a" prefixes ≡ none)
    × (validate_object_key "uploadsX" prefixes ≡ none)
unfolding validate_object_key
refused = (refl, refl, refl)

validate_object_key-IsSafeKey_example :
    ("uploads/a/b.png" ≡ trim_space " uploads/a/b.png") × IsSafeKey prefixes "uploads/a/b.png"
validate_object_key-IsSafeKey_example =
    validate_object_key-IsSafeKey " uploads/a/b.png" prefixes "uploads/a/b.png" accepted

-- a lifetime that wraps around to a negative one
wraps : seconds_of (pos 9223372037) ≡ negsuc 9223372036709551615
unfolding seconds_of
wraps = refl

abbrev body : UploadRequest
body = record { object_key = "uploads/a.png"; content_type = "image/png"; expires_in = pos 60 }

abbrev json : Json
json = record {
  error = λ code. code;
  item = λ i. i.name;
  operation = λ op. op.url;
  upload_request = λ r. some body;
}

abbrev api : Api String ℕ
api = record {
  sessions = record {
    get = λ id w. (err not_found, w);
    put = λ s w. (ok tt, w);
    delete = λ id w. (ok tt, w);
  };
  policy = none;
  domain = none;
  storage = none;
  audit = none;
  upload_bucket = "b";
  upload_prefixes = prefixes;
  max_presign_ttl = pos 0;
}

abbrev sign : PresignedRequest → Exec String ℕ PresignedOperation
sign req w = (ok (record { url = req.object_key; method = "PUT"; expires_at = 0; headers = [] }), w)

abbrev stamp : Stamp
stamp = record { id = "e1"; at = 5 }

abbrev none_known : String → Option ErrorKind
none_known e = none

abbrev request : Request
request = record {
  method = "POST";
  path = "/api/storage/upload-url";
  remote_addr = "";
  header = λ name. "";
  query = λ name. "";
  cookie = λ name. none;
  limit = none;
  context = record {
    request_id = "";
    trace_id = "";
    client_ip = "";
    client_ip_source = "";
    cf_ray = "";
    session = none;
  };
}

abbrev world : ℕ
world = 0

signs : (presign_upload api json none_known stamp sign request world).0.status ≡ 200
unfolding presign_upload validate_object_key seconds_of
signs = refl

presign_upload-IsSigned_example :
    IsSigned api json none_known stamp sign request world
    ⊎ IsRefused api json none_known stamp sign request world
presign_upload-IsSigned_example =
    presign_upload-IsSigned api json none_known stamp sign request world
