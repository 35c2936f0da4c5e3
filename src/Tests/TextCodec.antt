-- ===== src/Tests/TextCodec.antt =====
-- A text for the documents of the control connection, for which what the source relies on of `json`
-- and pydantic holds.
use vertex_testbed.Control.Protocol.{Json, Request, Response, Command, Kind, json, blob}
use vertex_testbed.Control.Transport.Exchange.{Faithful}
use vertex_testbed.Control.Transport.Chunks.{NotNewline}
use vertex_testbed.Common.{
  sym, [], ◌∷◌, ℕ, zero, suc, Option, none, some, true, false, Bool, ◌++◌, ◌==◌, ◌+◌, ◌-◌, ◌≡◌,
  refl, All, arith, if◌then◌else◌, ap, ap₂, All-append, ◌∙◌,
}
use vertex_testbed.Common.Bytes.{Bytes}
use vertex_testbed.Common.Int.{ℤ, pos, negsuc}
use mathlib.Core.List.{append-nil}

pub data Doc : Type 0 where
  request : Request ℕ → Doc
  response : Response ℕ → Doc

abbrev write_text : Bytes → Bytes
write_text [] = 0 ∷ []
write_text (b ∷ bs) = (b + 11) ∷ write_text bs

abbrev read_text : Bytes → Bytes × Bytes
read_text [] = ([], [])
read_text (x ∷ xs) = if x == 0 then ([], xs) else ((x - 11) ∷ (read_text xs).0, (read_text xs).1)

read_text-write_text : (bs rest : Bytes) → read_text (write_text bs ++ rest) ≡ (bs, rest)
read_text-write_text [] rest = refl
read_text-write_text (b ∷ bs) rest =
    let f : (b + 11 == 0) ≡ false = ground arith in
    let e : b + 11 - 11 ≡ b = omega arith in
    rw f (ap₂ (λ x p. (x ∷ p.0, p.1)) e (read_text-write_text bs rest))

abbrev tag : Command → ℕ
tag Command.status = 0
tag Command.configure = 1
tag Command.start = 2
tag Command.stop = 3
tag Command.list_runs = 4
tag Command.fetch = 5

abbrev command_of : ℕ → Command
command_of zero = Command.status
command_of (suc zero) = Command.configure
command_of (suc (suc zero)) = Command.start
command_of (suc (suc (suc zero))) = Command.stop
command_of (suc (suc (suc (suc zero)))) = Command.list_runs
command_of n = Command.fetch

command_of-tag : (c : Command) → command_of (tag c) ≡ c
command_of-tag Command.status = refl
command_of-tag Command.configure = refl
command_of-tag Command.start = refl
command_of-tag Command.stop = refl
command_of-tag Command.list_runs = refl
command_of-tag Command.fetch = refl

abbrev write_bool : Bool → ℕ
write_bool true = 1
write_bool false = 0

abbrev write_kind : Kind → ℕ
write_kind json = 0
write_kind blob = 1

abbrev sign : ℤ → ℕ
sign (pos n) = 0
sign (negsuc n) = 1

abbrev magnitude : ℤ → ℕ
magnitude (pos n) = n
magnitude (negsuc n) = n

abbrev write_option : Option Bytes → Bytes
write_option none = 0 ∷ []
write_option (some t) = 1 ∷ write_text t

abbrev write_response_doc : Response ℕ → Bytes
write_response_doc r =
    1
    ∷ write_bool r.ok
    ∷ write_kind r.kind
    ∷ (r.data_ + 11)
    ∷ (r.version + 11)
    ∷ sign r.n_bytes
    ∷ (magnitude r.n_bytes + 11)
    ∷ (write_text r.name ++ write_option r.error)

abbrev dumps : Doc → Bytes
dumps (request r) = 0 ∷ tag r.command ∷ (r.args + 11) ∷ (r.version + 11) ∷ []
dumps (response r) = write_response_doc r

abbrev read_bool : ℕ → Bool
read_bool zero = false
read_bool n = true

abbrev read_kind : ℕ → Kind
read_kind zero = json
read_kind n = blob

abbrev read_int : ℕ → ℕ → ℤ
read_int zero n = pos (n - 11)
read_int k n = negsuc (n - 11)

abbrev read_option : Bytes → Option Bytes
read_option (suc k ∷ bs) = some (read_text bs).0
read_option bs = none

abbrev loads : Bytes → Option Doc
loads (zero ∷ c ∷ a ∷ v ∷ []) =
    some (request (record { command = command_of c; args = a - 11; version = v - 11 }))
loads (suc k' ∷ k ∷ d ∷ a ∷ v ∷ s ∷ n ∷ rest) = some (
    response (record {
      ok = read_bool k;
      kind = read_kind d;
      data_ = a - 11;
      error = read_option (read_text rest).1;
      n_bytes = read_int s n;
      name = (read_text rest).0;
      version = v - 11;
    }))
loads bs = none

abbrev version_of : Doc → ℕ
version_of (request r) = r.version
version_of (response r) = r.version

abbrev as_request : Doc → Option (Request ℕ)
as_request (request r) = some r
as_request (response r) = none

abbrev as_response : Doc → Option (Response ℕ)
as_response (request r) = none
as_response (response r) = some r

abbrev pub text_codec : Json Doc ℕ
text_codec = record {
  dumps = dumps;
  loads = loads;
  is_object = λ d. true;
  version_of = version_of;
  dump_request = request;
  validate_request = as_request;
  dump_response = response;
  validate_response = as_response;
}

loads-request : (r : Request ℕ) → loads (dumps (request r)) ≡ some (request r)
loads-request r =
    let a : r.args + 11 - 11 ≡ r.args = omega arith in
    let v : r.version + 11 - 11 ≡ r.version = omega arith in
    rw a (rw v (rw (command_of-tag r.command) refl))

read_bool-write_bool : (b : Bool) → read_bool (write_bool b) ≡ b
read_bool-write_bool true = refl
read_bool-write_bool false = refl

read_kind-write_kind : (k : Kind) → read_kind (write_kind k) ≡ k
read_kind-write_kind json = refl
read_kind-write_kind blob = refl

read_option-write_option : (o : Option Bytes) → read_option (write_option o) ≡ o
read_option-write_option none = refl
read_option-write_option (some t) =
    ap (λ b. some (read_text b).0) (sym (append-nil (write_text t)))
    ∙ ap (λ p. some (p.0)) (read_text-write_text t [])

read_int-sign : (n : ℤ) → read_int (sign n) (magnitude n + 11) ≡ n
read_int-sign (pos n) = ap pos (omega arith)
read_int-sign (negsuc n) = ap negsuc (omega arith)

loads-response : (r : Response ℕ) → loads (dumps (response r)) ≡ some (response r)
loads-response r = rw a (
    rw v (
      rw t (
        rw (read_bool-write_bool r.ok) (
          rw (read_kind-write_kind r.kind)
            (rw (read_int-sign r.n_bytes) (rw (read_option-write_option r.error) refl))))))
  where
    a : r.data_ + 11 - 11 ≡ r.data_
    a = omega arith

    v : r.version + 11 - 11 ≡ r.version
    v = omega arith

    t : read_text (write_text r.name ++ write_option r.error) ≡ (r.name, write_option r.error)
    t = read_text-write_text r.name (write_option r.error)

tag-NotNewline : (c : Command) → NotNewline (tag c)
tag-NotNewline Command.status = refl
tag-NotNewline Command.configure = refl
tag-NotNewline Command.start = refl
tag-NotNewline Command.stop = refl
tag-NotNewline Command.list_runs = refl
tag-NotNewline Command.fetch = refl

write_text-NotNewline : (bs : Bytes) → All NotNewline (write_text bs)
write_text-NotNewline [] = (refl, tt)
write_text-NotNewline (b ∷ bs) = (ground arith, write_text-NotNewline bs)

write_option-NotNewline : (o : Option Bytes) → All NotNewline (write_option o)
write_option-NotNewline none = (refl, tt)
write_option-NotNewline (some t) = (refl, write_text-NotNewline t)

bool-NotNewline : (b : Bool) → NotNewline (write_bool b)
bool-NotNewline true = refl
bool-NotNewline false = refl

kind-NotNewline : (k : Kind) → NotNewline (write_kind k)
kind-NotNewline json = refl
kind-NotNewline blob = refl

sign-NotNewline : (n : ℤ) → NotNewline (sign n)
sign-NotNewline (pos n) = refl
sign-NotNewline (negsuc n) = refl

pub text_codec-Faithful : Faithful text_codec
text_codec-Faithful = record {
  loads_request = loads-request;
  loads_response = loads-response;
  request_one_line = λ r. (refl, (tag-NotNewline r.command, (ground arith, (ground arith, tt))));
  response_one_line = λ r. (
    refl,
    (
      bool-NotNewline r.ok,
      (
        kind-NotNewline r.kind,
        (
          ground arith,
          (
            ground arith,
            (
              sign-NotNewline r.n_bytes,
              (
                ground arith,
                All-append NotNewline (write_text r.name) (write_option r.error)
                    (write_text-NotNewline r.name) (write_option-NotNewline r.error),
              ),
            ),
          ),
        ),
      ),
    ),
  );
  request_object = λ r. refl;
  response_object = λ r. refl;
  request_version = λ r. refl;
  response_version = λ r. refl;
  request_valid = λ r. refl;
  response_valid = λ r. refl;
}
