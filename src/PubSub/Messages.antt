-- ===== src/PubSub/Messages.antt =====
-- The messages of a room: reading one, sorting them, and the name of a topic.
use p2p_verse.Common.{
  Option, none, some, List, [], ◌∷◌, ◌++◌, Bytes, codes, Result, ok, if◌then◌else◌, ◌>>=◌,
}
use p2p_verse.Common.Action.{Ending, returns, panics, of_result}
use p2p_verse.Std.Time
use p2p_verse.Std.Time.{Time}
use p2p_verse.External.Messages.{Codec}
use p2p_verse.External.Gossip.{PbMessage, Message}

-- `recievedMessage`, whose embedded message has the data without the time
pub record ReceivedMessage : Type 0 where
  pub message : Message
  pub time : Time

abbrev pub encode_topic_name : Bytes → Bytes
encode_topic_name topic_name = codes "pubsub topic: " ++ topic_name

module _ (c : Codec PbMessage) where
  -- `convertMessage` of a message.
  unfoldable pub convert : Message → Result ReceivedMessage
  convert mes = do
    raw ← c.unmarshal mes.data_bytes
    t ← Time.unmarshal raw.time
    ok (record { message = record mes { data_bytes = raw.data_bytes }; time = t })

  -- `convertMessage`, which panics when it reads the data of no message.
  unfoldable pub convert_message : Option Message → Ending ReceivedMessage
  convert_message none = panics
  convert_message (some mes) = of_result (convert mes)

  -- What `GetAll` appends for a message: nothing if it cannot be converted.
  abbrev pub append_converted : List ReceivedMessage → Ending ReceivedMessage → List ReceivedMessage
  append_converted mess (returns m) = mess ++ (m ∷ [])
  append_converted mess e = mess

-- `sort.Slice` of a short slice: each element in turn is moved in front of those that are later.
unfoldable pub insert : ReceivedMessage → List ReceivedMessage → List ReceivedMessage
insert m [] = m ∷ []
insert m (k ∷ ks) =
    let rest = insert m ks in if Time.before m.time k.time then m ∷ k ∷ ks else k ∷ rest

unfoldable pub insert_all : List ReceivedMessage → List ReceivedMessage → List ReceivedMessage
insert_all sorted [] = sorted
insert_all sorted (m ∷ ms) = insert_all (insert m sorted) ms

-- `messSort`
unfoldable pub mess_sort : List ReceivedMessage → List ReceivedMessage
unfolding insert_all
mess_sort mess = insert_all [] mess
