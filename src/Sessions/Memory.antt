-- ===== src/Sessions/Memory.antt =====
-- backend/session_store/models.py: `SessionMemory`. A deque with `maxlen` is a list, the most recent
-- item last; ids are texts, and the numbers of a citation are only stored and returned.
use verisearch.Prelude.{ℕ, List, [], ◌∷◌, if◌then◌else◌, Str, str_eq}
use verisearch.Prelude.Deque.{append_bounded}

abbrev pub max_citations : ℕ
max_citations = 50

abbrev pub max_doc_ids : ℕ
max_doc_ids = 20

-- `SessionCitation`, without the id and the time that `get_context` leaves out.
pub record Citation : Type 0 where
  pub document_id : Str
  pub version : ℕ
  pub answer_start : ℕ
  pub answer_end : ℕ
  pub source_start : ℕ
  pub source_end : ℕ

-- `SessionMemory`
pub record Memory : Type 0 where
  pub citations : List Citation
  pub doc_ids : List Str

-- `deque.remove`, which drops the first occurrence; a missing one is passed over.
unfoldable pub remove_first : Str → List Str → List Str
remove_first x [] = []
remove_first x (y ∷ ys) = let rest = remove_first x ys in if str_eq y x then ys else y ∷ rest

-- `add_citation`
unfoldable pub add_citation : Citation → Memory → Memory
unfolding append_bounded
add_citation c m = record m { citations = append_bounded max_citations m.citations c }

-- `add_doc_id`
unfoldable pub add_doc_id : Str → Memory → Memory
unfolding append_bounded remove_first
add_doc_id d m = record m { doc_ids = append_bounded max_doc_ids (remove_first d m.doc_ids) d }

-- `clear`
abbrev pub cleared : Memory
cleared = record { citations = []; doc_ids = [] }
