-- ===== src/Storage/Memory/Bookmarks.antt =====
-- The BookmarkStore methods of storage/memory/memory.go.
use xmpp_go.Prelude.{none, some, List, err, or_fail, list_eq}
use xmpp_go.Prelude.Bytes.{Bytes}
use xmpp_go.Prelude.Dict.{get, put, remove, values}
use xmpp_go.Prelude.Nested.{inner, put_in}
use xmpp_go.Storage.Model.{not_found, Read, Bookmark}
use xmpp_go.Storage.Memory.State.{Store, Write, done, fails}

unfoldable pub set_bookmark : Store → Bookmark → Write
set_bookmark s bm = done (record s { bookmarks = put_in s.bookmarks bm.user_jid bm.room_jid bm })

unfoldable pub get_bookmark : Store → Bytes → Bytes → Read Bookmark
get_bookmark s user_jid room_jid = elim (get s.bookmarks user_jid) [
  | none ↦ err not_found
  | some m ↦ or_fail not_found (get m room_jid)
]

unfoldable pub get_bookmarks : Store → Bytes → List Bookmark
get_bookmarks s user_jid = values (inner s.bookmarks user_jid)

unfoldable pub delete_bookmark : Store → Bytes → Bytes → Write
delete_bookmark s user_jid room_jid = elim (get s.bookmarks user_jid) [
  | none ↦ fails s not_found
  | some m ↦ elim (get m room_jid) [
    | none ↦ fails s not_found
    | some _ ↦ done (record s { bookmarks = put s.bookmarks user_jid (remove m room_jid) })
  ]
]
