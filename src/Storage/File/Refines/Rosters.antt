-- ===== src/Storage/File/Refines/Rosters.antt =====
-- The rosters of the file backend against those of the in-memory backend.
use xmpp_go.Prelude.{◌≡◌, list_eq}
use xmpp_go.Prelude.Bytes.{Bytes}
use xmpp_go.Storage.Memory.State.{Store, Write}
use xmpp_go.Storage.Memory.Roster as MemoryRoster
use xmpp_go.Storage.File.Disk.{Disk, Formats, FileWrite}
use xmpp_go.Storage.File.Documented.{IsWritableItem}
use xmpp_go.Storage.File.Roster as FileRoster
use xmpp_go.Storage.File.Maps.{ShowsMaps}
use xmpp_go.Storage.File.Refines.{as_error}

module _ (f : Formats) where
  -- The roster files show the rosters of the store.
  abbrev pub ShowsRosters : Disk → Store → Type 0
  ShowsRosters d s = ShowsMaps f.roster_file IsWritableItem d.roster s.roster_items

  -- The two writes report the same and leave the same rosters.
  abbrev pub SameRoster : FileWrite → Write → Type 0
  SameRoster a b = ShowsRosters a.0 b.0 × (a.1 ≡ as_error b.1)
