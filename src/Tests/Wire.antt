-- ===== src/Tests/Wire.antt =====
-- The parser of the server, and the round trip from the client.
use esp32s3_inmp.Base.{
  ◌≡◌, refl, false, List, Bytes, [], ◌∷◌, none, some, codes, arith, if◌then◌else◌,
}
use esp32s3_inmp.HttpIngest.{HttpIngest, chunk_size, http_ingest_feed, is_error}
use esp32s3_inmp.HttpIngest.Feed.{pushes, unread}
use esp32s3_inmp.HttpIngest.Feed.Loop.{http_ingest_feed_lem}
use esp32s3_inmp.HttpIngest.Feed.Cuts.{feed_all, feed_all_cuts}
use esp32s3_inmp.RoundTrip.Body.{keep_spans, keep_spans-SplitsFor}

-- The parser behind the headers.
abbrev at_body : HttpIngest Bytes
at_body = record {
  state = chunk_size;
  line = [];
  chunk_remaining = 0;
  method = codes "POST";
  path = codes "/";
  session_id = [];
  wake_conf_milli = 0;
  complete = false;
  failed = false;
  user = [];
}

-- "1", CR, LF, "a", CR, LF
abbrev one_chunk : Bytes
one_chunk = 49 ∷ 13 ∷ 10 ∷ 97 ∷ 13 ∷ 10 ∷ []

http_ingest_feed_lem_example :
    http_ingest_feed keep_spans 6 at_body one_chunk
    ≡ some (
      if is_error (pushes keep_spans at_body one_chunk).state
          then none
          else some (unread keep_spans at_body one_chunk),
      pushes keep_spans at_body one_chunk,
    )
http_ingest_feed_lem_example =
    http_ingest_feed_lem keep_spans 6 at_body one_chunk keep_spans-SplitsFor (λ e. cc) (omega arith)

feed_all_cuts_example :
    (end : HttpIngest Bytes) × (feed_all keep_spans 6 at_body (one_chunk ∷ []) ≡ some end)
    × (feed_all keep_spans 6 at_body ((49 ∷ []) ∷ (13 ∷ 10 ∷ 97 ∷ []) ∷ (13 ∷ 10 ∷ []) ∷ [])
        ≡ some end)
feed_all_cuts_example =
    feed_all_cuts keep_spans (one_chunk ∷ [])
      ((49 ∷ []) ∷ (13 ∷ 10 ∷ 97 ∷ []) ∷ (13 ∷ 10 ∷ []) ∷ []) 6 at_body keep_spans-SplitsFor
      (λ e. cc) refl (omega arith)

-- Two payloads.
abbrev two_payloads : List Bytes
two_payloads = (97 ∷ 98 ∷ []) ∷ (99 ∷ []) ∷ []
