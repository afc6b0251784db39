-- ===== src/Stanza.antt =====
-- stanza/{stanza,iq,error}.go: headers, IQs and their answers, stanza errors. A message or presence
-- keeps, beside its header, the rest of its fields as one text.
use xmpp_go.Prelude.{Option, none, some, []}
use xmpp_go.Prelude.Bytes.{Bytes, bytes}
use xmpp_go.Jid.{Jid}

pub record Header : Type 0 where
  pub id : Bytes
  pub from : Jid
  pub to : Jid
  pub stanza_type : Bytes
  pub lang : Bytes

pub record StanzaError : Type 0 where
  pub error_type : Bytes
  pub by : Bytes
  pub condition : Bytes
  pub text : Bytes

abbrev pub new_stanza_error : Bytes → Bytes → Bytes → StanzaError
new_stanza_error error_type condition text = record {
  error_type = error_type;
  by = [];
  condition = condition;
  text = text;
}

pub record Iq : Type 0 where
  pub header : Header
  pub query : Bytes
  pub error : Option StanzaError

abbrev pub iq_get : Bytes
iq_get = bytes "get"

abbrev pub iq_set : Bytes
iq_set = bytes "set"

abbrev pub iq_result : Bytes
iq_result = bytes "result"

abbrev pub iq_error : Bytes
iq_error = bytes "error"

unfoldable pub result_iq : Iq → Iq
result_iq iq = record {
  header = record {
    id = iq.header.id;
    from = iq.header.to;
    to = iq.header.from;
    stanza_type = iq_result;
    lang = [];
  };
  query = [];
  error = none;
}

unfoldable pub error_iq : Iq → StanzaError → Iq
error_iq iq e = record {
  header = record {
    id = iq.header.id;
    from = iq.header.to;
    to = iq.header.from;
    stanza_type = iq_error;
    lang = [];
  };
  query = [];
  error = some e;
}

pub record Message : Type 0 where
  pub header : Header
  pub content : Bytes

pub record Presence : Type 0 where
  pub header : Header
  pub content : Bytes
