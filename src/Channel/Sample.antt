-- ===== src/Channel/Sample.antt =====
-- An open channel on an open connection, for the tests.
use rabbitpy.Prelude.{ℕ, false, none, List, []}
use rabbitpy.Stateful
use rabbitpy.Channel.{Channel, channel, Tick}

abbrev pub open_channel : (maximum_frame_size : ℕ) → List Tick → Channel
open_channel maximum_frame_size schedule = record {
  kind = channel;
  channel_id = 1;
  state = Stateful.open_state;
  blocking_read = false;
  waiting = false;
  interrupt = none;
  consumers = [];
  publisher_confirms = false;
  capabilities = [];
  maximum_frame_size = maximum_frame_size;
  connection_state = Stateful.open_state;
  exceptions = [];
  read_queue = [];
  write_queue = [];
  wakeups = 0;
  schedule = schedule;
}
