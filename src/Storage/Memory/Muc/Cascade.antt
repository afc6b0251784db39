-- ===== src/Storage/Memory/Muc/Cascade.antt =====
-- Destroying a room.
use xmpp_go.Prelude.{
  ◌≡◌, none, [], ok, err, or_fail, list_eq, ◌==◌, eq_iff, eq_refl, if◌then◌else◌, ◌&&◌, arith,
}
use xmpp_go.Prelude.Bytes.{Bytes}
use xmpp_go.Prelude.Dict.{get, values, get-put, get-remove}
use xmpp_go.Prelude.Nested.{inner, get_in, put_in, remove_in, get_in-put_in, get_in-remove_in}
use xmpp_go.Storage.Model.{not_found, user_exists, MucRoom, MucAffiliation}
use xmpp_go.Storage.Memory.State.{Store, fails}
use xmpp_go.Storage.Memory.Muc.{
  create_room, get_room, delete_room, set_affiliation, get_affiliation, get_affiliations,
  remove_affiliation,
}

-- Deleting a room that exists removes it together with all of its affiliations, and leaves every
-- other room and its affiliations as they were.
pub delete_room_cascades :
    (s : Store) (room other user : Bytes) (r : MucRoom)
    → get_room s room ≡ ok r
    → let (s', e) = delete_room s room in
      (e ≡ none)
      × (get_room s' other ≡ (if room == other then err not_found else get_room s other))
      × (get_affiliation s' other user
          ≡ (if room == other then err not_found else get_affiliation s other user))
      × (get_affiliations s' room ≡ [])
unfolding delete_room get_room get_affiliation get_affiliations inner values
delete_room_cascades s room other user r h = (
  ground arith,
  ground (arith, get-remove s.muc_rooms room other, eq_iff room other),
  ground (arith, get-remove s.muc_affiliations room other, eq_iff room other),
  ground (arith, get-remove s.muc_affiliations room room, eq_refl room),
)

-- A room is created once: creating it again reports `user_exists` and changes nothing.
pub create_room_twice :
    (s : Store) (room again : MucRoom) (name : Bytes)
    → again.room_jid ≡ room.room_jid
    → (create_room s room).1 ≡ none
    → let s' = (create_room s room).0 in
      (create_room s' again ≡ fails s' user_exists)
      × (get_room s' name ≡ (if room.room_jid == name then ok room else get_room s name))
unfolding create_room get_room
create_room_twice s room again name e h = (
  ground (
    arith,
    get-put s.muc_rooms room.room_jid again.room_jid room,
    eq_iff room.room_jid again.room_jid,
  ),
  ground (arith, get-put s.muc_rooms room.room_jid name room, eq_iff room.room_jid name),
)

-- The read goes through the two maps at once.
pub get_affiliation_lem :
    (s : Store) (room user : Bytes)
    → get_affiliation s room user ≡ or_fail not_found (get_in s.muc_affiliations room user)
unfolding get_affiliation get_in inner get
get_affiliation_lem s room user = ground arith

-- An affiliation that is set is read back until it is removed, and setting or removing it touches
-- no other.
pub affiliation_roundtrip :
    (s : Store) (aff : MucAffiliation) (room user : Bytes)
    → let s' = (set_affiliation s aff).0 in
      (get_affiliation s' room user ≡ (
        if aff.room_jid == room && aff.user_jid == user
        then ok aff
        else get_affiliation s room user))
      × (get_affiliation (remove_affiliation s' aff.room_jid aff.user_jid).0 room user ≡ (
          if aff.room_jid == room && aff.user_jid == user
          then err not_found
          else get_affiliation s room user))
unfolding set_affiliation remove_affiliation
affiliation_roundtrip s aff room user =
    let added = put_in s.muc_affiliations aff.room_jid aff.user_jid aff in
    (
      ground (
        arith,
        get_affiliation_lem s room user,
        get_affiliation_lem (record s { muc_affiliations = added }) room user,
        get_in-put_in s.muc_affiliations aff.room_jid room aff.user_jid user aff,
      ),
      ground (
        arith,
        get_affiliation_lem s room user,
        get_affiliation_lem
            (record s { muc_affiliations = remove_in added aff.room_jid aff.user_jid }) room user,
        get_in-put_in s.muc_affiliations aff.room_jid room aff.user_jid user aff,
        get_in-remove_in added aff.room_jid room aff.user_jid user,
      ),
    )
