-- ===== src/Api/Handler/Answer.antt =====
-- What a handler has done when it has answered: the message that is read, the error that is found,
-- and the text that is published.
use noc_demo.Common.{◌≡◌, refl, Option, some, List, [], ◌∷◌, ◌++◌}
use noc_demo.Common.Int.{pos}
use noc_demo.Common.Texts.{Text}
use noc_demo.Api.Errors.{Error, ErrorTables, error_table_lookup}
use noc_demo.Api.Handler.{mqtt_publish_message, begin, error_of, respond_name, named}
use noc_demo.Api.Message.{
  MsgType, Data, Header, MsgRespond, cvt_json_to_msg_request, cvt_msg_respond_to_json,
  cvt_respond_data_to_json, cvt_data_to_json, member_to_json, respond_members, message_members,
  cvt_msg_request_to_msg_respond,
}
use noc_demo.CJson.Base.{CJson}
use noc_demo.CJson.Object.{object_of}
use noc_demo.ErrorCode.{ErrorCode, code}
use noc_demo.World.{World, done}

-- the world after one more message
abbrev pub told : Text → Text → World → World
told topic text w = record w { published = w.published ++ (topic, text) ∷ [] }

module _ ⦃cj : CJson⦄ where
  open cj use {Json, print, minify}

  -- the answer to a request with this header and name, with an error and the JSON of its data
  abbrev pub answer_text : Header → Text → Option Json → Error → Text
  answer_text h name item e =
      let payload = object_of (respond_members item (some e)) in
      minify (print (object_of (message_members (record h { name = some name }) (some payload))))

module _ ⦃cj : CJson⦄ (resumed : List Text) where
  open cj use {Json}

  -- The message is this request, and its name has this answer.
  pub record Asks (msg_json : Json) (type : MsgType) (h : Header) (payload : Option Data)
      (name : Text) : Type 0 where
    pub parsed :
        cvt_json_to_msg_request (some msg_json) type ≡ record { header = h; payload = payload }
    pub converted : (w : World) → respond_name resumed h.name w ≡ done name w

  abbrev pub answer_of : Header → Option Data → Text → MsgRespond
  answer_of h payload name =
      named (cvt_msg_request_to_msg_respond (record { header = h; payload = payload })) name

  pub begin_lem :
      {msg_json : Json} {type : MsgType} {h : Header} {payload : Option Data} {name : Text}
      (w : World)
      → Asks msg_json type h payload name
      → begin resumed msg_json type w
        ≡ done (record { header = h; payload = payload }, answer_of h payload name) w
  unfolding begin cvt_msg_request_to_msg_respond
  begin_lem w asks = rw (asks.parsed, asks.converted w)

  pub error_lem :
      (tables : ErrorTables) (err : ErrorCode) (e : Error) (w : World)
      → error_table_lookup tables (pos (code err)) ≡ some e
      → error_of tables err w ≡ done e w
  unfolding error_of
  error_lem tables err e w h = rw h

  abbrev pub finished : Header → Data → Text → Error → MsgRespond
  finished h d name e = record {
    header = record h { name = some name };
    respond_data = some (record { error = some e; payload = some d });
  }

  pub publish_lem :
      (topic : Text) (type : MsgType) (h : Header) (d : Data) (name : Text) (e : Error)
      (item : Option Json) (w : World)
      → member_to_json type d w ≡ done item w
      → mqtt_publish_message topic (finished h d name e) type w
        ≡ done tt (told topic (answer_text h name item e) w)
  unfolding mqtt_publish_message cvt_msg_respond_to_json cvt_respond_data_to_json cvt_data_to_json
  publish_lem topic type h d name e item w written = rw written refl
