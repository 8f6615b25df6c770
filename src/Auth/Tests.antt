-- ===== src/Auth/Tests.antt =====
-- The theorems on authentication at a table of one key, and hashes that are the tokens.
use verisearch.Prelude.{
  ℕ, ◌+◌, ◌*◌, Bool, true, false, inr, none, some, List, [], ◌∷◌, ltb, if◌then◌else◌, Str, str_eq,
  codes, ◌≡◌, refl, arith,
}
use verisearch.Auth.Keys.{
  KeyRow, second, candidates_in, Outcome, refused, authenticated, revoked_token, first_match,
}
use verisearch.Auth.Service.{Host, Failure, AuthService, answered, usable, presented, authenticate}
use verisearch.Auth.Propagation.{answer, Call, authenticate_all, authenticate-authenticate_all}
use verisearch.Audit.Log.{is_valid_request_id}
use verisearch.Auth.Rotation.{seconds, validate_rotation_grace_seconds, Fresh, rotate_key}
use verisearch.Auth.Grace.{authenticate-rotate_key, answer-rotate_key}
use verisearch.Auth.Failures.{Reports, authenticate-Reports}

abbrev plain : Host
plain = record { lower = λ s. s; strip = λ s. s; verify = λ hash token. str_eq hash token }

abbrev old_key : KeyRow
old_key = record {
  api_key_id = codes "k1";
  tenant_id = codes "acme";
  key_prefix = codes "abcd1234";
  key_hash = codes "abcd1234_x";
  expires_at = none;
  revoked_at = none;
  rotation_grace_seconds = 3600;
}

abbrev table : List KeyRow
table = old_key ∷ []

-- The emitter takes an event whose request id is one of the audit log.
abbrev takes : ℕ → Failure → Bool
takes now event = is_valid_request_id event.request_id

abbrev service : AuthService
service = record {
  cache = record {
    ttl_seconds = 60;
    max_size = 4096;
    store = (codes "abcd1234", record { rows = table; expires_at = 60 }) ∷ [];
  };
  emitter = some takes;
  audit = [];
}

abbrev request : Str
request = codes "request-0123456789"

abbrev header : Str
header = codes "bearer abcd1234_x"

abbrev new_key : Fresh
new_key = record {
  api_key_id = codes "k2";
  plaintext = codes "ffff0000_y";
  prefix = codes "ffff0000";
  hash = codes "ffff0000_y";
}

abbrev earlier : List Call
earlier =
    record { header = header; request_id = request; resource = codes "/"; tick = 30; now = 30 } ∷ []

header-usable : presented plain header ≡ usable (codes "abcd1234_x") (codes "abcd1234")
unfolding presented
header-usable = refl

authenticate-authenticate_all_example :
    (authenticate plain header request
      (codes "/search")
      []
      61
      70
      (authenticate_all plain [] earlier service)).0
    ≡ answered
        (some takes)
        70
        request
        (codes "/search")
        (answer plain (presented plain header) [] 70)
authenticate-authenticate_all_example =
    authenticate-authenticate_all plain [] 60 earlier service header request (codes "/search") 61 70
      (omega arith) (omega arith)

authenticate-rotate_key_example :
    (authenticate plain header request
      (codes "/search")
      (rotate_key false (codes "acme") (codes "abcd1234") (seconds 10) new_key 5 table service).1
      61
      (6 + 10 * second)
      (authenticate_all plain
        (rotate_key false (codes "acme") (codes "abcd1234") (seconds 10) new_key 5 table service).1
        earlier
        (rotate_key false
          (codes "acme")
          (codes "abcd1234")
          (seconds 10)
          new_key
          5
          table
          service).2)).0
    ≡ answered (some takes) (6 + 10 * second) request (codes "/search") (
        if ltb (5 + 10 * second) (6 + 10 * second)
        then refused revoked_token (some (codes "acme"))
        else authenticated (codes "acme") (codes "k1"))
unfolding validate_rotation_grace_seconds first_match candidates_in
authenticate-rotate_key_example =
    authenticate-rotate_key plain false (codes "acme") (codes "abcd1234") (seconds 10) 10 new_key 5
      table service 60 earlier (codes "abcd1234_x") header request (codes "/search") old_key 61
      (6 + 10 * second) refl header-usable refl refl refl refl (inr (omega arith, omega arith))

answer-rotate_key_example :
    answer plain
      (usable (codes "ffff0000_y") (codes "ffff0000"))
      (rotate_key true (codes "acme") (codes "abcd1234") (seconds 10) new_key 5 table service).1
      7
    ≡ authenticated (codes "acme") (codes "k2")
unfolding validate_rotation_grace_seconds first_match candidates_in
answer-rotate_key_example =
    answer-rotate_key plain true (codes "acme") (codes "abcd1234") (seconds 10) 10 new_key 5 table
      service 7 refl refl refl refl

authenticate-Reports_example :
    (o : Outcome) × ((authenticate plain
        (codes "bearer abcd1234_z")
        request
        (codes "/search")
        table
        61
        70
        (record service { emitter = none })).0
      ≡ some o)
    × Reports
        (takes 70)
        request
        (codes "/search")
        o
        []
        (authenticate plain
          (codes "bearer abcd1234_z")
          request
          (codes "/search")
          table
          61
          70
          service).0
        (authenticate plain
          (codes "bearer abcd1234_z")
          request
          (codes "/search")
          table
          61
          70
          service).1.audit
authenticate-Reports_example =
    authenticate-Reports plain (codes "bearer abcd1234_z") request (codes "/search") table 61 70
      service takes refl
