-- ===== src/Session/Redis/Queues.antt =====
-- A function from keys to lists as the store, to instantiate the commands.
use text.Mathlib.Text.{◌==◌ as str_eq}
use text.Mathlib.TextEquality.{eq_iff}
use cue_api.Common.{◌≡◌, refl, String, List, [], ◌∷◌, ◌++◌, reverse, length, if◌then◌else◌}
use cue_api.Session.Redis.{Lists, ListsLaws}

abbrev pub Queues : Type 0
Queues = String → List String

replace_list : Queues → String → List String → Queues
replace_list queues key list other = if str_eq other key then list else queues other

replace_list-same :
    (queues : Queues) (key : String) (list : List String) → replace_list queues key list key ≡ list
unfolding replace_list
replace_list-same queues key list = rw ((eq_iff key key).1 refl) refl

unfoldable pub queue_lists : Lists Queues
unfolding replace_list
queue_lists = record {
  lrange = λ queues key. queues key;
  rpush = λ queues key value.
      (replace_list queues key (queues key ++ value ∷ []), length (queues key ++ value ∷ []));
  lpush = λ queues key values. replace_list queues key (reverse values ++ queues key);
  del = λ queues key. replace_list queues key [];
  pexpire = λ queues key ttl. queues;
}

pub queue_lists-ListsLaws : ListsLaws queue_lists
unfolding queue_lists
queue_lists-ListsLaws = record {
  lrange-rpush = λ r key value. replace_list-same r key _;
  rpush-length = λ r key value. rw (replace_list-same r key (r key ++ value ∷ [])) refl;
  lrange-lpush = λ r key values. replace_list-same r key _;
  lrange-del = λ r key. replace_list-same r key [];
  lrange-pexpire = λ r key other ttl. refl;
}
