-- ===== src/Session/Debounce/Examples.antt =====
-- A window of two messages, with the lock free.
use cue_api.Common.{
  ◌≡◌, refl, sym, ap, ◌∙◌, append-nil, String, true, false, none, some, List, [], ◌∷◌, map,
}
use cue_api.Session.Redis.{Strings, Lists, ListsLaws}
use cue_api.Session.Redis.Table.{Table, table_strings}
use cue_api.Session.Redis.Queues.{Queues, queue_lists, queue_lists-ListsLaws}
use cue_api.Session.MessageBuffer.{BufferedMessage, Json, text, drain}
use cue_api.Session.Debounce.{
  Services, DebounceConfig, TurnInput, AddedJob, drain_and_run, run_drained_turn,
}
use cue_api.Session.MessageBuffer.Order.{Holds}
use cue_api.Session.Debounce.Window.{QueueApart, buffer_all, OneFirst, buffer_all-OneFirst}
use cue_api.Session.Debounce.Keeps.{Buffered, Apart, Kept, arrivals, drain_and_run-Kept}

-- What is outside the stores: the keys, the jobs that were added and the turns that ran.
record Desk : Type 0 where
  table : Table
  queues : Queues
  jobs : List AddedJob
  turns : List TurnInput

abbrev desk_strings : Strings Desk
desk_strings = record {
  get = λ r key. table_strings.get r.table key;
  set_nx = λ r key value ttl. (
    record r { table = (table_strings.set_nx r.table key value ttl).0 },
    (table_strings.set_nx r.table key value ttl).1,
  );
  del = λ r key.
      (record r { table = (table_strings.del r.table key).0 }, (table_strings.del r.table key).1);
  pexpire = λ r key ttl. (r, (table_strings.pexpire r.table key ttl).1);
}

abbrev desk_lists : Lists Desk
desk_lists = record {
  lrange = λ r key. queue_lists.lrange r.queues key;
  rpush = λ r key value. (
    record r { queues = (queue_lists.rpush r.queues key value).0 },
    (queue_lists.rpush r.queues key value).1,
  );
  lpush = λ r key values. record r { queues = queue_lists.lpush r.queues key values };
  del = λ r key. record r { queues = queue_lists.del r.queues key };
  pexpire = λ r key ttl. record r { queues = queue_lists.pexpire r.queues key ttl };
}

desk_lists-ListsLaws : ListsLaws desk_lists
desk_lists-ListsLaws = record {
  lrange-rpush = λ r. queue_lists-ListsLaws.lrange-rpush r.queues;
  rpush-length = λ r. queue_lists-ListsLaws.rpush-length r.queues;
  lrange-lpush = λ r. queue_lists-ListsLaws.lrange-lpush r.queues;
  lrange-del = λ r. queue_lists-ListsLaws.lrange-del r.queues;
  lrange-pexpire = λ r. queue_lists-ListsLaws.lrange-pexpire r.queues;
}

abbrev said : String → BufferedMessage
said words = record {
  text = words;
  kind = text;
  vendor_chat_id = "chat";
  correlation_id = "c1";
  chat_type = none;
  language_code = none;
  stt_language = none;
}

-- Entries that differ in their text alone.
abbrev json : Json
json = record { stringify = λ message. message.text; parse = λ words. some (said words) }

-- Turns that all throw once they are counted.
abbrev services : Services Desk
services = record {
  strings = desk_strings;
  lists = desk_lists;
  json = json;
  queue_add = λ r job. (record r { jobs = job ∷ r.jobs }, true);
  queue_remove = λ r id. (r, false);
  run_from_message = λ r input. (record r { turns = input ∷ r.turns }, false);
}

abbrev config : DebounceConfig
config = record {
  buffer = record { debounce_window_ms = 2000; debounce_queue_after_ms = 1000 };
  user_lock_ttl_ms = 90_000;
}

services-Apart : Apart services config
services-Apart = record {
  set_nx-apart = λ r locked value user_id ttl. refl;
  del-apart = λ r locked user_id. refl;
  queue-apart = λ r job user_id. refl;
  turn-arrivals = λ r input user_id. [];
  turn-appends =
      λ r input user_id messages h. h ∙ ap (map json.stringify) (sym (append-nil messages));
}

abbrev desk : Desk
desk = record { table = λ key. none; queues = λ key. "hi" ∷ "there" ∷ []; jobs = []; turns = [] }

desk-Buffered : Buffered services config desk "u1" (said "hi" ∷ said "there" ∷ [])
unfolding queue_lists
desk-Buffered = refl

drain_and_run-Kept_example :
    let drained = (drain desk_lists json config.buffer desk "u1").0 in
    Kept services config
      (drain_and_run services config desk "u1" "token" "nonce" none)
      "u1"
      (said "hi" ∷ said "there" ∷ [])
      (arrivals services config desk_lists-ListsLaws services-Apart drained "u1" "token"
        (said "hi")
        (said "hi" ∷ said "there" ∷ []))
      (run_drained_turn services config drained "u1" "token"
        (said "hi")
        (said "hi" ∷ said "there" ∷ [])).1
drain_and_run-Kept_example =
    drain_and_run-Kept services config desk_lists-ListsLaws services-Apart desk "u1" "token" "nonce"
      (said "hi") (said "there" ∷ []) (refl, (refl, tt)) desk-Buffered

services-QueueApart : QueueApart services config
services-QueueApart = record {
  add-apart = λ r job user_id. refl;
  remove-apart = λ r id user_id. refl;
}

abbrev quiet_desk : Desk
quiet_desk = record desk { queues = λ key. [] }

buffer_all-OneFirst_example :
    let (r, answers) = buffer_all services config quiet_desk "u1" (said "hi" ∷ said "there" ∷ []) in
    OneFirst [] answers
    × ((drain desk_lists json config.buffer r "u1").1 ≡ said "hi" ∷ said "there" ∷ [])
    × Holds desk_lists json (drain desk_lists json config.buffer r "u1").0 "u1" []
unfolding queue_lists
buffer_all-OneFirst_example =
    buffer_all-OneFirst services config desk_lists-ListsLaws services-QueueApart quiet_desk "u1" []
      (said "hi" ∷ said "there" ∷ []) refl (refl, (refl, tt))
