-- ===== src/Frame/Sample.antt =====
-- pamqp's classes as far as the tests need them.
use rabbitpy.Prelude.{String, Bool, true, false, List, [], ◌∷◌}
use rabbitpy.Frame.{
  Frame, FrameClass, Pamqp, channel_open, channel_open_ok, channel_close, channel_close_ok,
  basic_consume, basic_consume_ok, basic_deliver, basic_cancel, basic_cancel_ok, basic_ack,
  basic_nack, content_header, content_body, queue_declare, queue_declare_ok, queue_bind,
  queue_bind_ok, tx_select, tx_select_ok, tx_commit, tx_commit_ok, tx_rollback, tx_rollback_ok,
  connection_close, connection_close_ok, exchange_declare, exchange_declare_ok, exchange_bind,
  exchange_bind_ok, exchange_delete, exchange_delete_ok,
}

abbrev class_name : FrameClass → String
class_name channel_open = "Channel.Open"
class_name channel_open_ok = "Channel.OpenOk"
class_name channel_close = "Channel.Close"
class_name channel_close_ok = "Channel.CloseOk"
class_name basic_deliver = "Basic.Deliver"
class_name basic_cancel = "Basic.Cancel"
class_name basic_cancel_ok = "Basic.CancelOk"
class_name basic_ack = "Basic.Ack"
class_name basic_nack = "Basic.Nack"
class_name content_header = "ContentHeader"
class_name content_body = "ContentBody"
class_name queue_declare = "Queue.Declare"
class_name queue_declare_ok = "Queue.DeclareOk"
class_name queue_bind = "Queue.Bind"
class_name queue_bind_ok = "Queue.BindOk"
class_name tx_select = "Tx.Select"
class_name tx_select_ok = "Tx.SelectOk"
class_name tx_commit = "Tx.Commit"
class_name tx_commit_ok = "Tx.CommitOk"
class_name tx_rollback = "Tx.Rollback"
class_name tx_rollback_ok = "Tx.RollbackOk"
class_name exchange_declare = "Exchange.Declare"
class_name exchange_declare_ok = "Exchange.DeclareOk"
class_name exchange_bind = "Exchange.Bind"
class_name exchange_bind_ok = "Exchange.BindOk"
class_name exchange_delete = "Exchange.Delete"
class_name exchange_delete_ok = "Exchange.DeleteOk"
class_name basic_consume = "Basic.Consume"
class_name basic_consume_ok = "Basic.ConsumeOk"
class_name connection_close = "Connection.Close"
class_name connection_close_ok = "Connection.CloseOk"
class_name c = "Other"

abbrev is_method : FrameClass → Bool
is_method content_header = false
is_method content_body = false
is_method c = true

abbrev synchronous : FrameClass → Bool
synchronous channel_open = true
synchronous channel_close = true
synchronous basic_cancel = true
synchronous queue_declare = true
synchronous queue_bind = true
synchronous tx_select = true
synchronous tx_commit = true
synchronous tx_rollback = true
synchronous exchange_declare = true
synchronous exchange_bind = true
synchronous exchange_delete = true
synchronous basic_consume = true
synchronous connection_close = true
synchronous c = false

abbrev valid_responses : FrameClass → List String
valid_responses channel_open = "Channel.OpenOk" ∷ []
valid_responses channel_close = "Channel.CloseOk" ∷ []
valid_responses basic_cancel = "Basic.CancelOk" ∷ []
valid_responses queue_declare = "Queue.DeclareOk" ∷ []
valid_responses queue_bind = "Queue.BindOk" ∷ []
valid_responses tx_select = "Tx.SelectOk" ∷ []
valid_responses tx_commit = "Tx.CommitOk" ∷ []
valid_responses tx_rollback = "Tx.RollbackOk" ∷ []
valid_responses exchange_declare = "Exchange.DeclareOk" ∷ []
valid_responses exchange_bind = "Exchange.BindOk" ∷ []
valid_responses exchange_delete = "Exchange.DeleteOk" ∷ []
valid_responses basic_consume = "Basic.ConsumeOk" ∷ []
valid_responses connection_close = "Connection.CloseOk" ∷ []
valid_responses c = []

-- A body frame has a length, so that an empty one counts as false.
abbrev truthy : Frame → Bool
truthy (Frame.body []) = false
truthy f = true

abbrev pub sample : Pamqp
sample = record {
  class_name = class_name;
  is_method = is_method;
  synchronous = synchronous;
  valid_responses = valid_responses;
  truthy = truthy;
}
