-- ===== src/Storage/History/Page.antt =====
-- What `query` of crates/storage/src/clipboard.rs returns.
use superspace.Base.{◌≤◌, ◌≡◌, Bool, true, not, ◌||◌, List, length, retain, take, All, map}
use mathlib.Core.List.{Perm}
use superspace.Base.Sort.{IsSorted}
use superspace.Base.Text.{Text}
use superspace.Storage.Entry.{ClipboardEntry}
use superspace.Storage.History.{ClipboardQuery, Row, ClipboardStore, row_of}
use superspace.Storage.History.Query.{compare_rows, is_selected, limit_of}

module _ (fts_match : Text → Text → Bool) where
  -- A page of the rows that a query selects.
  pub record IsPage (q : ClipboardQuery) (rows : ClipboardStore) (page : List ClipboardEntry)
      : Type 0 where
    pub ranking : List Row
    pub selected : Perm ranking (retain (is_selected fts_match q) rows)
    pub sorted : IsSorted compare_rows ranking
    pub shown : map row_of page ≡ take (limit_of q) ranking
    pub concealed :
        All (λ (e : ClipboardEntry). (q.include_sensitive || not e.sensitive) ≡ true) page
    pub limited : length page ≤ 1_000
