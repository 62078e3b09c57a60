-- ===== src/Request/World.antt =====
-- What internal/request asks of code that it only calls: the API server, regexp, base64, url, pem,
-- x509 and the service account names of Kubernetes.
use capsule_proxy.Prelude.{String, Bool, Option, List, Result}
use capsule_proxy.Errors.{Error}

pub record Identity : Type 0 where
  pub username : String
  pub groups : List String

-- The part of a `SubjectAccessReview` that the code fills in.
pub record AccessReview : Type 0 where
  pub verb : String
  pub resource : String
  pub name : String
  pub user : Identity

-- The status of a `TokenReview`.
pub record TokenStatus : Type 0 where
  pub authenticated : Bool
  pub error : String
  pub user : Identity

pub record Certificate : Type 0 where
  pub common_name : String
  pub organization : List String
  pub raw : String

pub record Block : Type 0 where
  pub kind : String
  pub bytes : String

pub record World : Type 0 where
  -- `client.Create` of a review: the API server's answer, or the error of the call.
  pub access_review : AccessReview → Result Error Bool
  pub token_review : String → Result Error TokenStatus
  -- `regexp.Compile`, and `MatchString` of what it returns; `none` where the pattern is invalid.
  pub compile : String → Option (String → Bool)
  pub decode_base64 : String → Result Error String
  pub query_unescape : String → Result Error String
  -- `pem.Decode`: the first block, if there is one, and the rest.
  pub pem_decode : String → Option Block × String
  pub parse_certificate : String → Result Error Certificate
  -- `hex.EncodeToString(sha256.Sum256(raw))`
  pub sha256_hex : String → String
  -- `serviceaccount.SplitUsername`: the namespace and the name.
  pub split_username : String → Option (String × String)
