-- ===== src/Messages/Login.antt =====
-- The LOGIN messages that are accepted, described without the order of the checks.
use netorcai.Prelude.{
  Option, none, eqb_ℤ_iff, ℕ, ◌≤◌, String, codes, List, [], ◌∷◌, ◌≡◌, refl, ◌⊎◌, ◌↔◌, true, false,
  some, All, length, arith, eq_iff,
}
use netorcai.Result.{ok}
use netorcai.Json.{Fields}
use netorcai.ReadUtil.{read_string}
use netorcai.Version.{version_major, match_version, atoi}
use netorcai.Version.Shape.{IsVersion, match_version-some, match_version-IsVersion}
use netorcai.Messages.Types.{check_message_type-ok}
use netorcai.Messages.{
  check_message_type, MessageLogin, is_space, no_space, is_nickname, is_role, check_version,
  check_major, read_login_message,
}

abbrev pub IsRole : String → Type 0
IsRole role =
    (role ≡ "player") ⊎ (role ≡ "special player") ⊎ (role ≡ "visualization") ⊎ (role ≡ "game logic")

-- 1 to 10 characters, none of them white space.
pub record IsNickname (cs : List ℕ) : Type 0 where
  pub present : 1 ≤ length cs
  pub short : length cs ≤ 10
  pub solid : All (λ c. is_space c ≡ false) cs

-- MAJOR.MINOR.PATCH with netorcai's own major number.
abbrev pub Speaks : String → Type 0
Speaks text =
    (major : List ℕ) × (minor : List ℕ) × (patch : List ℕ) × IsVersion (codes text) major minor
      patch
    × (atoi major ≡ version_major)

pub record IsLogin (message : Fields) (m : MessageLogin) : Type 0 where
  pub typed : read_string message "message_type" ≡ ok "LOGIN"
  pub nickname_read : read_string message "nickname" ≡ ok m.nickname
  pub role_read : read_string message "role" ≡ ok m.role
  pub version_read : read_string message "metaprotocol_version" ≡ ok m.metaprotocol_version
  pub named : IsNickname (codes m.nickname)
  pub cast : IsRole m.role
  pub speaks : Speaks m.metaprotocol_version

is_role→IsRole : (role : String) → is_role role ≡ true → IsRole role
unfolding is_role
is_role→IsRole role h = ground (
  arith,
  eq_iff role "player",
  eq_iff role "special player",
  eq_iff role "visualization",
  eq_iff role "game logic",
)

IsRole→is_role : (role : String) → IsRole role → is_role role ≡ true
unfolding is_role
IsRole→is_role role h = ground (
  arith,
  eq_iff role "player",
  eq_iff role "special player",
  eq_iff role "visualization",
  eq_iff role "game logic",
)

no_space_iff : (cs : List ℕ) → (no_space cs ≡ true) ↔ All (λ c. is_space c ≡ false) cs
unfolding no_space
no_space_iff [] = (λ _. tt, λ _. refl)
no_space_iff (c ∷ cs) = (
  λ h. (ground arith, (no_space_iff cs).0 (ground arith)),
  λ h. ground (arith, (no_space_iff cs).1 h.1),
)

is_nickname→IsNickname : (cs : List ℕ) → is_nickname cs ≡ true → IsNickname cs
unfolding is_nickname
is_nickname→IsNickname cs h = record {
  present = ground arith;
  short = ground arith;
  solid = (no_space_iff cs).0 (ground arith);
}

IsNickname→is_nickname : (cs : List ℕ) → IsNickname cs → is_nickname cs ≡ true
unfolding is_nickname
IsNickname→is_nickname cs h = ground (arith, (no_space_iff cs).1 h.solid)

check_major-ok :
    (text : String) (o : Option (List ℕ × List ℕ × List ℕ))
    → check_major text o ≡ ok tt
    → (major : List ℕ) × (minor : List ℕ) × (patch : List ℕ) × (o ≡ some (major, minor, patch))
      × (atoi major ≡ version_major)
unfolding check_major
check_major-ok text none h = cc
check_major-ok text (some (major, minor, patch)) h =
    (major, minor, patch, refl, (eqb_ℤ_iff (atoi major) version_major).0 (ground arith))

check_version→Speaks : (text : String) → check_version text ≡ ok tt → Speaks text
unfolding check_version
check_version→Speaks text h =
    let (major, minor, patch, e, two) = check_major-ok text (match_version (codes text)) h in
    (major, minor, patch, match_version-some (codes text) e, two)

Speaks→check_version : (text : String) → Speaks text → check_version text ≡ ok tt
unfolding check_version
Speaks→check_version text (major, minor, patch, v, e) =
    rw (match_version-IsVersion _ major minor patch v, check_major, e)

read_login_message_sound :
    (message : Fields) (m : MessageLogin) → read_login_message message ≡ ok m → IsLogin message m
unfolding read_login_message
read_login_message_sound message m h = record {
  typed = check_message_type-ok message "LOGIN" (unfold check_message_type in ground arith);
  nickname_read = ground arith;
  role_read = ground arith;
  version_read = ground arith;
  named = is_nickname→IsNickname _ (ground arith);
  cast = is_role→IsRole _ (ground arith);
  speaks = check_version→Speaks _ (ground arith);
}

read_login_message_complete :
    (message : Fields) (m : MessageLogin) → IsLogin message m → read_login_message message ≡ ok m
unfolding read_login_message
read_login_message_complete message m v = rw (
  v.typed,
  v.nickname_read,
  v.role_read,
  v.version_read,
  IsNickname→is_nickname _ v.named,
  IsRole→is_role _ v.cast,
  Speaks→check_version _ v.speaks,
)

-- LOGIN is accepted exactly with the type "LOGIN", a nickname of 1 to 10 characters that are no
-- white space, one of the four roles, and a MAJOR.MINOR.PATCH version whose major number is
-- netorcai's; the message that is returned holds the fields that were read.
pub read_login_message-ok_iff :
    (message : Fields) (m : MessageLogin) → (read_login_message message ≡ ok m) ↔ IsLogin message m
read_login_message-ok_iff message m =
    (read_login_message_sound message m, read_login_message_complete message m)
