-- ===== src/Protocol/Reply.antt =====
-- Replies, and the fields of requests (agent/src/protocol.rs).
use carbide_os.Prelude.{
  ℕ, Bool, true, false, Option, none, some, List, [], ◌∷◌, if◌then◌else◌, is_empty,
}
use carbide_os.Text.{Text, same, trim}
use carbide_os.Host.{Json, num, str, arr, Items, nil, cons}
use carbide_os.System.Release.{find_member, member_of}
use carbide_os.Protocol.{Failure}

-- PROTOCOL_VERSION
abbrev pub protocol_version : ℕ
protocol_version = 1

pub record Reply : Type 0 where
  pub is_ok : Bool
  pub protocol : ℕ
  pub error : Option Failure
  pub data_fields : List (Text × Json)

-- `Reply::ok`
unfoldable pub ok_reply : Reply
ok_reply = record { is_ok = true; protocol = protocol_version; error = none; data_fields = [] }

-- `Reply::failed`
unfoldable pub failed_reply : Failure → Reply
failed_reply failure = record {
  is_ok = false;
  protocol = protocol_version;
  error = some failure;
  data_fields = [];
}

-- `Map::insert`: a key that is there gets the new value.
unfoldable pub insert_field : Text → Json → List (Text × Json) → List (Text × Json)
unfolding same
insert_field key value [] = (key, value) ∷ []
insert_field key value ((k, v) ∷ l) =
    let rest = insert_field key value l in if same k key then (k, value) ∷ l else (k, v) ∷ rest

-- `Reply::with`
unfoldable pub with_field : Text → Json → Reply → Reply
unfolding insert_field
with_field key value r = record r { data_fields = insert_field key value r.data_fields }

-- `Reply::maybe`
unfoldable pub maybe_field : Text → Option Json → Reply → Reply
unfolding with_field
maybe_field key none r = r
maybe_field key (some value) r = with_field key value r

abbrev pub text_value : Option Text → Option Json
text_value none = none
text_value (some s) = some (str s)

abbrev pub items_of : List Text → Items
items_of [] = nil
items_of (s ∷ l) = cons (str s) (items_of l)

abbrev pub list_value : List Text → Json
list_value l = arr (items_of l)

abbrev pub nonempty : Text → Option Text
nonempty s = if is_empty s then none else some s

abbrev pub text_of : Option Json → Option Text
text_of none = none
text_of (some (str s)) = nonempty (trim s)
text_of (some _) = none

-- `Fields::text`
unfoldable pub text_field : Text → Json → Option Text
unfolding find_member trim
text_field key request = text_of (member_of request key)

abbrev pub number_of : Option Json → Option ℕ
number_of none = none
number_of (some (num n)) = some n
number_of (some _) = none

-- `Fields::number`
unfoldable pub number_field : Text → Json → Option ℕ
unfolding find_member
number_field key request = number_of (member_of request key)
