-- ===== src/Frame.antt =====
-- The AMQP frames that rabbitpy names, with the attributes that it reads, and what it takes from
-- pamqp about their classes. pamqp is not part of the repository: the classes' `name`,
-- `synchronous` and `valid_responses`, whether a class derives from specification.Frame, and the
-- truth of a frame in a test, are the parameter `Pamqp`.
pub mod Sample
use rabbitpy.Prelude.{
  ℕ, String, Bool, true, false, ◌&&◌, ◌||◌, Option, none, some, List, [], ◌∷◌, str_eq, is_empty,
}

pub data FrameClass : Type 0 where
  channel_open channel_open_ok channel_close channel_close_ok : FrameClass
  basic_deliver basic_get basic_get_ok basic_get_empty basic_return : FrameClass
  basic_consume basic_consume_ok basic_cancel basic_cancel_ok : FrameClass
  basic_ack basic_nack basic_reject basic_qos basic_qos_ok : FrameClass
  basic_recover basic_recover_ok basic_publish : FrameClass
  confirm_select confirm_select_ok content_header content_body : FrameClass
  connection_start connection_start_ok connection_tune connection_tune_ok : FrameClass
  connection_open connection_open_ok connection_close connection_close_ok : FrameClass
  connection_blocked connection_unblocked heartbeat protocol_header : FrameClass
  queue_declare queue_declare_ok queue_bind queue_bind_ok queue_unbind : FrameClass
  queue_unbind_ok queue_delete queue_delete_ok queue_purge queue_purge_ok : FrameClass
  exchange_declare exchange_declare_ok exchange_bind exchange_bind_ok : FrameClass
  exchange_unbind exchange_unbind_ok exchange_delete exchange_delete_ok : FrameClass
  tx_select tx_select_ok tx_commit tx_commit_ok tx_rollback tx_rollback_ok : FrameClass
  other : ℕ → FrameClass

-- The values of a table of arguments that rabbitpy itself writes or hands on.
pub data Value : Type 0 where
  int : ℕ → Value
  text : String → Value
  texts : List String → Value
  opaque : ℕ → Value

-- The value of a message property, by its Python type. A datetime, a struct_time, a float and any
-- other object are known by a number.
pub data PropertyValue : Type 0 where
  null : PropertyValue
  str : String → PropertyValue
  bytes : List ℕ → PropertyValue
  integer float datetime struct_time object : ℕ → PropertyValue
  dict : List (String × Value) → PropertyValue

-- The methods that rabbitpy/amqp.py builds with all of their attributes.
pub data Command : Type 0 where
  consume_with :
      (ticket : ℕ) (queue consumer_tag : String) (no_local no_ack exclusive nowait : Bool)
      (arguments : Option (List (String × Value)))
      → Command
  declare_exchange_with :
      (ticket : ℕ) (exchange exchange_type : String)
      (passive durable auto_delete internal nowait : Bool)
      (arguments : Option (List (String × Value)))
      → Command
  delete_exchange_with : (ticket : ℕ) (exchange : String) (if_unused nowait : Bool) → Command
  bind_exchange_with unbind_exchange_with :
      (ticket : ℕ) (destination source routing_key : String) (nowait : Bool)
      (arguments : Option (List (String × Value)))
      → Command
  bind_queue_with :
      (ticket : ℕ) (queue exchange routing_key : String) (nowait : Bool)
      (arguments : Option (List (String × Value)))
      → Command
  declare_queue_with :
      (ticket : ℕ) (queue : String) (passive durable exclusive auto_delete nowait : Bool)
      (arguments : Option (List (String × Value)))
      → Command
  delete_queue_with : (ticket : ℕ) (queue : String) (if_unused if_empty nowait : Bool) → Command
  purge_queue_with : (ticket : ℕ) (queue : String) (nowait : Bool) → Command
  unbind_queue_with :
      (ticket : ℕ) (queue exchange routing_key : String)
      (arguments : Option (List (String × Value)))
      → Command

-- The attributes that rabbitpy sets or reads; a frame whose attributes it does not touch is `bare`.
pub data Frame : Type 0 where
  bare : FrameClass → Frame
  close : (class : FrameClass) (reply_code : ℕ) (reply_text : String) → Frame
  deliver : (consumer_tag : String) (delivery_tag : ℕ) → Frame
  get_ok : (delivery_tag : ℕ) → Frame
  returned : (reply_code : ℕ) (reply_text exchange routing_key : String) → Frame
  consume : (queue consumer_tag : String) (no_ack : Bool) (priority : Option ℕ) → Frame
  cancel : (consumer_tag : String) (nowait : Bool) → Frame
  ack : (delivery_tag : ℕ) (multiple : Bool) → Frame
  nack : (delivery_tag : ℕ) (multiple requeue : Bool) → Frame
  reject : (delivery_tag : ℕ) (requeue : Bool) → Frame
  qos : (prefetch_size prefetch_count : ℕ) (global : Bool) → Frame
  recover : (requeue : Bool) → Frame
  publish : (exchange routing_key : String) (mandatory immediate : Bool) → Frame
  get : (queue : String) (no_ack : Bool) → Frame
  header : (body_size : ℕ) (properties : List (String × PropertyValue)) → Frame
  body : (value : List ℕ) → Frame
  start : (version_major version_minor : ℕ) (server_properties : List (String × Value)) → Frame
  start_ok : (response locale : String) → Frame
  tune : FrameClass → (channel_max frame_max heartbeat_interval : ℕ) → Frame
  open_connection : (virtual_host : String) → Frame
  blocked_by : (reason : String) → Frame
  declare_queue :
      (queue : String) (durable passive exclusive auto_delete : Bool)
      (arguments : List (String × Value))
      → Frame
  declared_queue : (queue : String) (message_count consumer_count : ℕ) → Frame
  bind_queue :
      (class : FrameClass) (queue exchange routing_key : String) (arguments : List (String × Value))
      → Frame
  delete_queue : (queue : String) (if_unused if_empty : Bool) → Frame
  declare_exchange :
      (exchange exchange_type : String) (durable passive auto_delete : Bool)
      (arguments : List (String × Value))
      → Frame
  bind_exchange :
      (class : FrameClass) (destination source : String) (routing_key : Option String) → Frame
  delete_exchange : (exchange : String) (if_unused : Bool) → Frame
  built : Command → Frame

command_class : Command → FrameClass
command_class (consume_with t q tag l a e n args) = basic_consume
command_class (declare_exchange_with t e k p d a i n args) = FrameClass.exchange_declare
command_class (delete_exchange_with t e u n) = FrameClass.exchange_delete
command_class (bind_exchange_with t d s k n args) = FrameClass.exchange_bind
command_class (unbind_exchange_with t d s k n args) = FrameClass.exchange_unbind
command_class (bind_queue_with t q e k n args) = FrameClass.queue_bind
command_class (declare_queue_with t q p d e a n args) = FrameClass.queue_declare
command_class (delete_queue_with t q u e n) = FrameClass.queue_delete
command_class (purge_queue_with t q n) = FrameClass.queue_purge
command_class (unbind_queue_with t q e k args) = FrameClass.queue_unbind

-- The class of a frame object.
unfoldable pub class_of : Frame → FrameClass
unfolding command_class
class_of (bare c) = c
class_of (close c code reason) = c
class_of (deliver tag n) = basic_deliver
class_of (get_ok n) = basic_get_ok
class_of (returned code reason exchange key) = basic_return
class_of (consume queue tag no_ack priority) = basic_consume
class_of (cancel tag nowait) = basic_cancel
class_of (ack n multiple) = basic_ack
class_of (nack n multiple requeue) = basic_nack
class_of (reject n requeue) = basic_reject
class_of (qos size count global) = basic_qos
class_of (recover requeue) = basic_recover
class_of (publish exchange key mandatory immediate) = basic_publish
class_of (get queue no_ack) = basic_get
class_of (header n properties) = content_header
class_of (body v) = content_body
class_of (start major minor props) = connection_start
class_of (start_ok response locale) = connection_start_ok
class_of (tune c channels size interval) = c
class_of (open_connection vhost) = connection_open
class_of (blocked_by reason) = connection_blocked
class_of (declare_queue q d p e a args) = queue_declare
class_of (declared_queue q m c) = queue_declare_ok
class_of (bind_queue c q e k args) = c
class_of (delete_queue q u e) = queue_delete
class_of (declare_exchange e t d p a args) = exchange_declare
class_of (bind_exchange c d s k) = c
class_of (delete_exchange e u) = exchange_delete
class_of (built c) = command_class c

pub record Pamqp : Type 0 where
  pub class_name : FrameClass → String
  pub is_method : FrameClass → Bool
  pub synchronous : FrameClass → Bool
  pub valid_responses : FrameClass → List String
  pub truthy : Frame → Bool

-- A frame type to wait for: a name, or a class.
pub data FrameType : Type 0 where
  by_name : String → FrameType
  by_class : FrameClass → FrameType

-- One frame type, or a list of them.
pub data Expected : Type 0 where
  one : FrameType → Expected
  any_of : List FrameType → Expected
