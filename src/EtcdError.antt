-- ===== src/EtcdError.antt =====
-- error/error.go: the errors that the store and the server return, their codes, messages and HTTP
-- status. How an error is written as JSON is not modelled.
mod Tests
pub mod Status
use Prim.Native.String.{String}
use etcd.Prelude.{ℕ, ◌/◌, Option, none, some, List, [], ◌∷◌, ◌==◌, ◌||◌, if◌then◌else◌}
use etcd.Prelude.Map.{lookup}
use etcd.Prelude.Paths.{Text}

abbrev pub ecode_key_not_found : ℕ
ecode_key_not_found = 100

abbrev pub ecode_test_failed : ℕ
ecode_test_failed = 101

abbrev pub ecode_not_file : ℕ
ecode_not_file = 102

abbrev pub ecode_no_more_peer : ℕ
ecode_no_more_peer = 103

abbrev pub ecode_not_dir : ℕ
ecode_not_dir = 104

abbrev pub ecode_node_exist : ℕ
ecode_node_exist = 105

abbrev pub ecode_key_is_preserved : ℕ
ecode_key_is_preserved = 106

abbrev pub ecode_root_read_only : ℕ
ecode_root_read_only = 107

abbrev pub ecode_dir_not_empty : ℕ
ecode_dir_not_empty = 108

abbrev pub ecode_existing_peer_addr : ℕ
ecode_existing_peer_addr = 109

abbrev pub ecode_value_required : ℕ
ecode_value_required = 200

abbrev pub ecode_prev_value_required : ℕ
ecode_prev_value_required = 201

abbrev pub ecode_ttl_nan : ℕ
ecode_ttl_nan = 202

abbrev pub ecode_index_nan : ℕ
ecode_index_nan = 203

abbrev pub ecode_value_or_ttl_required : ℕ
ecode_value_or_ttl_required = 204

abbrev pub ecode_timeout_nan : ℕ
ecode_timeout_nan = 205

abbrev pub ecode_name_required : ℕ
ecode_name_required = 206

abbrev pub ecode_index_or_value_required : ℕ
ecode_index_or_value_required = 207

abbrev pub ecode_index_value_mutex : ℕ
ecode_index_value_mutex = 208

abbrev pub ecode_invalid_field : ℕ
ecode_invalid_field = 209

abbrev pub ecode_invalid_form : ℕ
ecode_invalid_form = 210

abbrev pub ecode_raft_internal : ℕ
ecode_raft_internal = 300

abbrev pub ecode_leader_elect : ℕ
ecode_leader_elect = 301

abbrev pub ecode_watcher_cleared : ℕ
ecode_watcher_cleared = 400

abbrev pub ecode_event_index_cleared : ℕ
ecode_event_index_cleared = 401

abbrev pub ecode_standby_internal : ℕ
ecode_standby_internal = 402

abbrev pub ecode_invalid_active_size : ℕ
ecode_invalid_active_size = 403

abbrev pub ecode_invalid_remove_delay : ℕ
ecode_invalid_remove_delay = 404

abbrev pub ecode_client_internal : ℕ
ecode_client_internal = 500

abbrev pub errors : List (ℕ × String)
errors =
    (ecode_key_not_found, "Key not found")
    ∷ (ecode_test_failed, "Compare failed")
    ∷ (ecode_not_file, "Not a file")
    ∷ (ecode_no_more_peer, "Reached the max number of peers in the cluster")
    ∷ (ecode_not_dir, "Not a directory")
    ∷ (ecode_node_exist, "Key already exists")
    ∷ (ecode_root_read_only, "Root is read only")
    ∷ (ecode_key_is_preserved, "The prefix of given key is a keyword in etcd")
    ∷ (ecode_dir_not_empty, "Directory not empty")
    ∷ (ecode_existing_peer_addr, "Peer address has existed")
    ∷ (ecode_value_required, "Value is Required in POST form")
    ∷ (ecode_prev_value_required, "PrevValue is Required in POST form")
    ∷ (ecode_ttl_nan, "The given TTL in POST form is not a number")
    ∷ (ecode_index_nan, "The given index in POST form is not a number")
    ∷ (ecode_value_or_ttl_required, "Value or TTL is required in POST form")
    ∷ (ecode_timeout_nan, "The given timeout in POST form is not a number")
    ∷ (ecode_name_required, "Name is required in POST form")
    ∷ (ecode_index_or_value_required, "Index or value is required")
    ∷ (ecode_index_value_mutex, "Index and value cannot both be specified")
    ∷ (ecode_invalid_field, "Invalid field")
    ∷ (ecode_invalid_form, "Invalid POST form")
    ∷ (ecode_raft_internal, "Raft Internal Error")
    ∷ (ecode_leader_elect, "During Leader Election")
    ∷ (ecode_watcher_cleared, "watcher is cleared due to etcd recovery")
    ∷ (ecode_event_index_cleared, "The event in requested index is outdated and cleared")
    ∷ (ecode_standby_internal, "Standby Internal Error")
    ∷ (ecode_invalid_active_size, "Invalid active size")
    ∷ (ecode_invalid_remove_delay, "Standby remove delay")
    ∷ (ecode_client_internal, "Client Internal Error")
    ∷ []

pub record Error : Type 0 where
  pub error_code : ℕ
  pub text : String
  pub cause : Text
  pub index : ℕ

-- A code that the table does not have has the empty message.
unfoldable pub message : ℕ → String
unfolding lookup
message code = elim (lookup code errors) [ none ↦ "" | some text ↦ text ]

unfoldable pub new_error : ℕ → Text → ℕ → Error
unfolding message
new_error code cause index = record {
  error_code = code;
  text = message code;
  cause = cause;
  index = index;
}

unfoldable pub new_request_error : ℕ → Text → Error
unfolding new_error
new_request_error code cause = new_error code cause 0

-- What a function returns with an error: the error, or its value.
pub data Outcome {ℓ} (A : Type ℓ) : Type ℓ where
  failed : Error → Outcome A
  returned : A → Outcome A

-- The HTTP status that the method `Write` sends.
unfoldable pub status : Error → ℕ
status e =
    if e.error_code == ecode_key_not_found
    then 404
    else if e.error_code == ecode_not_file || e.error_code == ecode_dir_not_empty
    then 403
    else if e.error_code == ecode_test_failed || e.error_code == ecode_node_exist
    then 412
    else if e.error_code / 100 == 3
    then 500
    else 400
