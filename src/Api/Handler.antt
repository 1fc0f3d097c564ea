-- ===== src/Api/Handler.antt =====
-- What the handlers of src/api share: the answer that a request is given, the error of a code, the
-- member of the union that a handler reads and writes, and mqtt_publish_message of
-- src/api/mqtt/mqtt_handler.c. Memory that is given back at the end of a handler is not modelled.
pub mod Answer
use noc_demo.Common.{Option, none, some, List, [], ◌∷◌, ◌++◌}
use noc_demo.Common.Int.{ℤ, pos}
use noc_demo.Common.Texts.{Text, codes}
use noc_demo.Api.Errors.{Error, ErrorTables, error_table_lookup}
use noc_demo.Api.Message.{
  MsgType, Data, cleared, RespondData, MsgRequest, MsgRespond, cvt_json_to_msg_request,
  cvt_msg_request_to_msg_respond, cvt_msg_respond_to_json,
}
use noc_demo.Api.Name.{answer_name, cvt_req_name_to_res_name}
use noc_demo.CJson.Base.{CJson}
use noc_demo.ErrorCode.{ErrorCode, code}
use noc_demo.World.{done, Cmd, pure, stop, ◌>>=◌, ◌>>◌, null_read, wrong_member, wild_read, sprintf}
use noc_demo.Utils.Shell.{execl_timeout}

-- src/config/service_controller/service_controller.c
unfoldable pub restart_service : Text → Cmd (Unit {0})
restart_service service_name = do
  cmd ← sprintf 200 (codes "/etc/init.d/" ++ (service_name ++ codes " restart"))
  execl_timeout cmd
  pure tt

abbrev pub publish : Text → Text → Cmd (Unit {0})
publish topic text w = done tt (record w { published = w.published ++ (topic, text) ∷ [] })

-- `pub_topic` is PUB_TOPIC; `resumed` are the words that strtok finds when it is given NULL.
module _ ⦃cj : CJson⦄ (pub_topic : Text) where
  open cj use {Json, print, minify}

  unfoldable pub mqtt_publish_message : MsgRespond → MsgType → Cmd (Unit {0})
  mqtt_publish_message respond type = do
    json ← cvt_msg_respond_to_json respond type
    publish pub_topic (minify (print json))

-- the name of the answer; a request may have none
unfoldable pub respond_name : List Text → Option Text → Cmd Text
respond_name resumed none = answer_name resumed
respond_name resumed (some name) = cvt_req_name_to_res_name name

abbrev pub named : MsgRespond → Text → MsgRespond
named respond name = record respond { header = record respond.header { name = some name } }

module _ ⦃cj : CJson⦄ where
  open cj use {Json}

  -- the first statements of a handler
  unfoldable pub begin : List Text → Json → MsgType → Cmd (MsgRequest × MsgRespond)
  begin resumed msg_json type = do
    let request = cvt_json_to_msg_request (some msg_json) type
    let respond = cvt_msg_request_to_msg_respond request
    name ← respond_name resumed respond.header.name
    pure (request, named respond name)

-- The pointer of a code that no table has is read when the answer is published.
found_error : Option Error → Cmd Error
found_error none = stop wild_read
found_error (some e) = pure e

module _ ⦃cj : CJson⦄ (tables : ErrorTables) where
  unfoldable pub error_at : ℤ → Cmd Error
  unfolding found_error
  error_at err = found_error (error_table_lookup tables err)

  unfoldable pub error_of : ErrorCode → Cmd Error
  unfolding error_at
  error_of err = error_at (pos (code err))

-- `respond_data->error = error`
unfoldable pub put_error : MsgRespond → Error → MsgRespond
put_error respond e = record respond {
  respond_data = elim respond.respond_data [
    | none ↦ none
    | some r ↦ some (record r { error = some e })
  ];
}

put_in : Option Data → Data → Cmd (Option Data)
put_in none d = stop null_read
put_in (some old) d = pure (some d)

put_data_in : Option RespondData → Data → Cmd (Option RespondData)
unfolding put_in
put_data_in none d = stop null_read
put_data_in (some r) d = do
  payload ← put_in r.payload d
  pure (some (record r { payload = payload }))

-- `respond_data->data->member = value`
unfoldable pub put_data : MsgRespond → Data → Cmd MsgRespond
unfolding put_data_in
put_data respond d = do
  respond_data ← put_data_in respond.respond_data d
  pure (record respond { respond_data = respond_data })

module _ {A : Type 0} (member : Data → Option A) where
  found_member : Option A → Cmd (Option A)
  found_member none = stop wrong_member
  found_member (some a) = pure (some a)

  -- `data->member`, which is NULL in a cleared union
  unfoldable pub data_member : Option Data → Cmd (Option A)
  unfolding found_member
  data_member none = stop null_read
  data_member (some cleared) = pure none
  data_member (some d) = found_member (member d)
