-- ===== src/Monitor/Indexer/Tests.antt =====
-- A page of events, and the theorem of the indexer at it.
use dabdub.Prelude.{
  ℕ, zero, suc, ◌+◌, ◌-◌, ◌≤◌, Option, String, length, leb, if◌then◌else◌, arith, ◌≢◌, ◌≡◌, refl,
  none, some, List, [], ◌∷◌, All,
}
use dabdub.Platform.Actions.{ok, History}
use dabdub.Platform.Samples.{calm}
use dabdub.Monitor.Indexer.{Feed, index_pages, RpcEvent, parse_event, index_events}
use dabdub.Monitor.Indexer.Laws.{Accounted, index_events-Accounted}
use dabdub.Monitor.Indexer.Pages.{position, Follow, PagesInOrder, index_pages_ends}
use dabdub.Cache.Samples.{marks, length_of, length_of-marks}

abbrev paid_in : RpcEvent
paid_in = record {
  id = "ev1";
  paging_token = "7";
  ledger = some 12;
  topic = "payment_confirmed" ∷ [];
  value = record {
    payment_reference = some "PAY-1";
    reference = none;
    tx_hash = some "tx1";
    amount = some (some 5);
    asset = none;
    settlement_id = none;
    partner_reference = none;
  };
}

-- Its value has no hash.
abbrev hashless : RpcEvent
hashless = record paid_in { id = "ev2"; value = record paid_in.value { tx_hash = none } }

abbrev page : List RpcEvent
page = paid_in ∷ hashless ∷ []

abbrev after_page : History
after_page = (index_events calm page 3 []).1

indexed : index_events calm page 3 [] ≡ (ok 12, after_page)
unfolding index_events
indexed = refl

index_events-Accounted_example : All (λ e. Accounted e (parse_event e) after_page) page
index_events-Accounted_example = index_events-Accounted calm page 3 12 [] after_page indexed

-- Of an unknown kind, and passed over; its token counts the events up to it.
abbrev event_at : ℕ → RpcEvent
event_at n = record paid_in { paging_token = marks (n + 1); topic = [] }

abbrev events_from : (before count : ℕ) → List RpcEvent
events_from n zero = []
events_from n (suc count) = event_at n ∷ events_from (n + 1) count

-- The contract has 250 events: a full page, and fifty more.
abbrev place : String → ℕ
place token = if leb (length_of token) 250 then length_of token else 250

abbrev from_ledger : Option ℕ → ℕ
from_ledger start = 0

abbrev page_at : (before : ℕ) → List RpcEvent
page_at n = events_from n (if leb (250 - n) 200 then 250 - n else 200)

abbrev feed : Feed
feed = record {
  contract_id = "C1";
  last_ledger = λ h. none;
  page = λ start cursor h. page_at (position from_ledger place start cursor);
  latest_ledger = λ start cursor h. 20;
}

length-events_from : (n count : ℕ) → length (events_from n count) ≡ count
length-events_from n zero = refl
length-events_from n (suc count) =
    let rest = length-events_from (n + 1) count in omega (arith, rest)

place-marks : (n : ℕ) → n ≤ 250 → place (marks n) ≡ n
place-marks n small = let size = length_of-marks n in ground arith

events_from-Follow : (n count : ℕ) → n + count ≤ 250 → Follow place n (events_from n count)
events_from-Follow n zero small = tt
events_from-Follow n (suc count) small = (
  place-marks (n + 1) (omega (arith, small)),
  events_from-Follow (n + 1) count (omega (arith, small)),
)

page_at-InOrder : (n : ℕ) → n ≤ 250 → Follow place n (page_at n) × (n + length (page_at n) ≤ 250)
page_at-InOrder n small =
    let count = if leb (250 - n) 200 then 250 - n else 200 in
    let fits : n + count ≤ 250 = ground arith in
    (
      events_from-Follow n count fits,
      (let size = length-events_from n count in omega (arith, size, fits)),
    )

feed-PagesInOrder : PagesInOrder feed from_ledger place 250
feed-PagesInOrder start none h = page_at-InOrder 0 (omega arith)
feed-PagesInOrder start (some token) h = page_at-InOrder (place token) (ground arith)

-- The first page is full, so that the loop goes on, and it ends with the second.
two_pages :
    ((index_pages calm feed 1 none none 0 []).0 ≡ ok none)
    × ((index_pages calm feed 2 none none 0 []).0 ≡ ok (some 20))
unfolding index_pages length_of
two_pages = (refl, refl)

abbrev ended : History
ended = (index_pages calm feed 2 none none 0 []).1

index_pages_ends_example : index_pages calm feed 2 none none 0 [] ≢ (ok none, ended)
index_pages_ends_example =
    index_pages_ends calm feed from_ledger place 250 feed-PagesInOrder 2 none none 0 [] ended
      (omega arith)
