-- ===== src/Control/Protocol.antt =====
-- vertex/control/protocol.py: the messages, one JSON object on a line each. `json` and pydantic are
-- a parameter, `Json`.
use vertex_testbed.Common.{
  ◌^◌, [], ◌∷◌, ℕ, Option, none, some, Result, ok, err, true, false, Bool, ◌++◌, Exception, ltb,
  length, require, ◌>>◌, ◌>>=◌, ◌==◌, not,
}
use vertex_testbed.Common.Bytes.{Bytes}
use vertex_testbed.Common.Int.{ℤ, pos}

-- `PROTOCOL_VERSION`, `MAX_LINE` and the newline that ends a message.
abbrev pub protocol_version : ℕ
protocol_version = 1

abbrev pub max_line : ℕ
max_line = 2 ^ 20

abbrev pub newline : ℕ
newline = 10

pub data Command : Type 0 where
  status configure start stop list_runs fetch : Command

pub data Kind : Type 0 where
  json blob : Kind

-- `Args` is `dict[str, Any]`.
pub record Request (Args : Type 0) : Type 0 where
  pub command : Command
  pub args : Args
  pub version : ℕ

-- `error` and `name` are text, as its bytes.
pub record Response (Args : Type 0) : Type 0 where
  pub ok : Bool
  pub kind : Kind
  pub data_ : Args
  pub error : Option Bytes
  pub n_bytes : ℤ
  pub name : Bytes
  pub version : ℕ

-- What the source calls of `json` and pydantic, on documents of a type `Doc`: `json.dumps` with
-- `encode`, `decode` with `json.loads` (`none` where either raises), `isinstance(obj, dict)`,
-- `obj.get("version", PROTOCOL_VERSION)`, and `model_dump` and `model_validate` of both models.
pub record Json (Doc Args : Type 0) : Type 0 where
  pub dumps : Doc → Bytes
  pub loads : Bytes → Option Doc
  pub is_object : Doc → Bool
  pub version_of : Doc → ℕ
  pub dump_request : Request Args → Doc
  pub validate_request : Doc → Option (Request Args)
  pub dump_response : Response Args → Doc
  pub validate_response : Doc → Option (Response Args)

module _ {Args : Type 0} where
  -- `ok` and `fail`
  abbrev pub respond_ok : Args → Response Args
  respond_ok data_ = record {
    ok = true;
    kind = json;
    data_ = data_;
    error = none;
    n_bytes = pos 0;
    name = [];
    version = protocol_version;
  }

  abbrev pub fail : Args → Bytes → Response Args
  fail empty text = record {
    ok = false;
    kind = json;
    data_ = empty;
    error = some text;
    n_bytes = pos 0;
    name = [];
    version = protocol_version;
  }

abbrev or_raise {ℓ} : {A : Type ℓ} → Option A → Exception → Result A
or_raise none e = err e
or_raise (some a) e = ok a

module _ {Doc Args : Type 0} (lib : Json Doc Args) where
  unfoldable pub encode_request : Request Args → Bytes
  encode_request req = lib.dumps (lib.dump_request req) ++ (newline ∷ [])

  unfoldable pub encode_response : Response Args → Bytes
  encode_response resp = lib.dumps (lib.dump_response resp) ++ (newline ∷ [])

  -- `_parse`
  unfoldable pub parse : Bytes → Result Doc
  parse line = do
    require (not (ltb max_line (length line))) Exception.protocol_error
    obj ← or_raise (lib.loads line) Exception.protocol_error
    require (lib.is_object obj) Exception.protocol_error
    ok obj

  -- `_check_version`
  unfoldable pub check_version : Doc → Result (Unit {0})
  check_version obj = require (lib.version_of obj == protocol_version) Exception.protocol_error

  unfoldable pub decode_request : Bytes → Result (Request Args)
  unfolding parse check_version
  decode_request line = do
    obj ← parse line
    check_version obj
    or_raise (lib.validate_request obj) Exception.protocol_error

  unfoldable pub decode_response : Bytes → Result (Response Args)
  unfolding parse check_version
  decode_response line = do
    obj ← parse line
    check_version obj
    or_raise (lib.validate_response obj) Exception.protocol_error
