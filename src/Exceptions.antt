-- ===== src/Exceptions.antt =====
-- rabbitpy/exceptions.py: the exceptions that the modelled code raises, with the arguments that a
-- caller can read, and the table of the exceptions that stand for AMQP reply codes. The Python
-- exceptions that the code raises itself or runs into (ValueError, KeyError, ...) stand beside
-- them.
use rabbitpy.Prelude.{ℕ, String, Bool, Option, none, some, ◌==◌, if◌then◌else◌}

pub data AmqpError : Type 0 where
  content_too_large no_route no_consumers connection_forced invalid_path : AmqpError
  access_refused not_found resource_locked precondition_failed frame_error : AmqpError
  syntax_error command_invalid channel_error unexpected_frame resource_error : AmqpError
  not_allowed not_implemented internal_error : AmqpError

pub data Exception : Type 0 where
  amqp : AmqpError → Exception
  action_exception : String → Exception
  channel_closed connection_closed connection_reset no_active_transaction : Exception
  not_consuming too_many_channels unexpected_response : Exception
  connection_exception : String → Exception
  remote_cancellation : String → Exception
  remote_closed_channel : ℕ → ℕ → String → Exception
  remote_closed : ℕ → String → Exception
  message_returned : ℕ → String → String → String → Exception
  not_supported : String → Exception
  amqp_unexpected_frame : String → Exception
  value_error key_error : String → Exception
  runtime_error zero_division type_error deprecation_warning : Exception
  attribute_error index_error : Exception
  environment_error : (interrupted : Bool) → Exception

-- The entries of `exceptions.AMQP` above 500.
amqp_exception_5xx : ℕ → Option AmqpError
amqp_exception_5xx code =
    if code == 501
    then some frame_error
    else if code == 502
    then some syntax_error
    else if code == 503
    then some command_invalid
    else if code == 504
    then some channel_error
    else if code == 505
    then some unexpected_frame
    else if code == 506
    then some resource_error
    else if code == 530
    then some not_allowed
    else if code == 540
    then some not_implemented
    else if code == 541
    then some internal_error
    else none

-- `exceptions.AMQP.get(reply_code)`
unfoldable pub amqp_exception : ℕ → Option AmqpError
unfolding amqp_exception_5xx
amqp_exception code =
    if code == 311
    then some content_too_large
    else if code == 312
    then some no_route
    else if code == 313
    then some no_consumers
    else if code == 320
    then some connection_forced
    else if code == 402
    then some invalid_path
    else if code == 403
    then some access_refused
    else if code == 404
    then some not_found
    else if code == 405
    then some resource_locked
    else if code == 406
    then some precondition_failed
    else amqp_exception_5xx code
