-- ===== src/Storage/File/Collisions.antt =====
-- storage/file/file.go joins a host and a node by an underscore, which both may contain.
use xmpp_go.Prelude.{list_eq}
use xmpp_go.Prelude.Bytes.{Bytes}
use xmpp_go.Storage.File.Disk.{Disk}
