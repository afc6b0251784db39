-- ===== src/Storage/Memory/Archive.antt =====
-- The MAMStore methods of storage/memory/memory.go. An archive identifier that the store assigns
-- is the decimal text of an `int64` counter.
pub mod Selection
pub mod Paging
use xmpp_go.Prelude.{
  ℕ, ◌+◌, ◌-◌, ◌/◌, ◌%◌, ◌^◌, zero, suc, Bool, true, false, List, [], ◌∷◌, ◌++◌, or_zero, list_eq,
  ◌==◌, if◌then◌else◌, not, ◌&&◌, length, ltb, leb, eqb, take,
}
use xmpp_go.Prelude.Bytes.{Bytes}
use xmpp_go.Prelude.Dict.{get, put, remove}
use xmpp_go.Storage.Model.{ArchivedMessage}
use xmpp_go.Storage.Memory.State.{Store, Write, done}

-- The digits of `n` from the most significant, as `fmt.Sprintf("%d", n)` prints them; the first
-- argument bounds the number of digits.
unfoldable pub decimal : ℕ → ℕ → Bytes
decimal zero n = []
decimal (suc fuel) n =
    let more = decimal fuel (n / 10) in
    if ltb n 10 then (48 + n) ∷ [] else more ++ (48 + n % 10) ∷ []

-- The counter is the bit pattern of an `int64`, printed with its sign.
unfoldable pub format_int64 : ℕ → Bytes
unfolding decimal
format_int64 n = if ltb n (2 ^ 63) then decimal 20 n else b'-' ∷ decimal 20 (2 ^ 64 - n)

unfoldable pub next_counter : ℕ → ℕ
next_counter n = (n + 1) % 2 ^ 64

abbrev pub stamp_message : ArchivedMessage → ℕ → ArchivedMessage
stamp_message msg now = if eqb msg.created_at 0 then record msg { created_at = now } else msg

-- A message without an identifier gets the given value of the counter.
abbrev pub identify : ArchivedMessage → ℕ → ArchivedMessage
identify cp counter = if cp.id == [] then record cp { id = format_int64 counter } else cp

unfoldable pub archive_message : Store → ArchivedMessage → ℕ → Write
unfolding next_counter
archive_message s msg now =
    let cp = stamp_message msg now in
    let counter = next_counter s.mam_id_counter in
    done (record s {
      mam_id_counter = if cp.id == [] then counter else s.mam_id_counter;
      mam_messages =
          put s.mam_messages msg.user_jid
            (or_zero [] (get s.mam_messages msg.user_jid) ++ identify cp counter ∷ []);
    })

-- `limit` is the field `Max`, an `int`: every value of at most 0 is 0 here, as the code treats them
-- alike.
pub record MamQuery : Type 0 where
  pub user_jid : Bytes
  pub with_jid : Bytes
  pub start : ℕ
  pub end : ℕ
  pub after_id : Bytes
  pub before_id : Bytes
  pub limit : ℕ

pub record MamResult : Type 0 where
  pub messages : List ArchivedMessage
  pub complete : Bool
  pub first : Bytes
  pub last : Bytes
  pub count : ℕ

-- The three filters of the loop: a message is kept if no test makes the loop continue.
unfoldable pub passes : MamQuery → ArchivedMessage → Bool
passes q m =
    not (not (q.with_jid == []) && not (m.with_jid == q.with_jid))
    && not (not (eqb q.start 0) && ltb m.created_at q.start)
    && not (not (eqb q.end 0) && ltb q.end m.created_at)

-- The loop of `QueryMessages`, from a message on, with its flag `afterIDFound`.
unfoldable pub scan : MamQuery → Bool → List ArchivedMessage → List ArchivedMessage
unfolding passes
scan q found [] = []
scan q false (m ∷ msgs) = scan q (m.id == q.after_id) msgs
scan q true (m ∷ msgs) =
    let rest = scan q true msgs in
    if not (q.before_id == []) && m.id == q.before_id
    then []
    else if passes q m
    then m ∷ rest
    else rest

unfoldable pub max_of : MamQuery → ℕ
max_of q = if eqb q.limit 0 then 100 else q.limit

abbrev pub first_id : List ArchivedMessage → Bytes
first_id [] = []
first_id (m ∷ msgs) = m.id

abbrev pub last_id : List ArchivedMessage → Bytes
last_id [] = []
last_id (m ∷ []) = m.id
last_id (m ∷ n ∷ msgs) = last_id (n ∷ msgs)

unfoldable pub query_messages : Store → MamQuery → MamResult
unfolding scan max_of
query_messages s q =
    let filtered = scan q (q.after_id == []) (or_zero [] (get s.mam_messages q.user_jid)) in
    let page = take (max_of q) filtered in
    record {
      messages = page;
      complete = leb (length filtered) (max_of q);
      first = first_id page;
      last = last_id page;
      count = length page;
    }

unfoldable pub delete_message_archive : Store → Bytes → Write
delete_message_archive s user_jid =
    done (record s { mam_messages = remove s.mam_messages user_jid })
