-- ===== src/Tests/Texts.antt =====
-- ASCII texts, and a node that is alone with a book on its shelf.
use stage.Prelude.{
  ℕ, ◌+◌, ◌%◌, ◌≡◌, ◌≢◌, refl, Bool, true, false, not, ◌&&◌, none, some, [], ◌∷◌, Str, str, str_eq,
  nat_eq, In, All, arith, keep, any, is_empty, In-keep_iff,
}
use stage.Assoc.{assoc}
use stage.Site.{IsAlone}
use stage.Membership.Service.{get_alive_members}
use stage.Storage.Partitioner.{get_owners, owners_among, ring}
use stage.Storage.Sort.{sort_ids}
use stage.Storage.Protocol.{Format}
use stage.Storage.Memory.{Store}
use stage.Text.{Unicode, Regex, is_lower, is_upper, is_letter, split_whitespace}
use stage.Text.Edges.{In-split_whitespace}
use stage.App.{App, Setting, Formats}
use stage.Search.Types.{BookMetadata}
use stage.Ingestion.Types.{RawDocument}
use stage.Tests.{down}
use stage.Tests.Workers.{small_site}

-- ASCII only.
abbrev pub lower_char : ℕ → ℕ
lower_char c = elim (is_upper c) [ true ↦ c + 32 | false ↦ c ]

abbrev pub lower : Str → Str
lower [] = []
lower (c ∷ s) = lower_char c ∷ lower s

pub lower_of_lower : (s : Str) → All (λ c. is_lower c ≡ true) s → lower s ≡ s
lower_of_lower [] h = refl
lower_of_lower (c ∷ s) h = ground (arith, h, lower_of_lower s)

pub lower_no_upper : (s : Str) (c : ℕ) → In c (lower s) → is_upper c ≡ false
lower_no_upper [] c i = elim i [ ]
lower_no_upper (a ∷ s) c i = ground (arith, i, lower_no_upper s c)

pub letter_of_lower : (c : ℕ) → is_lower c ≡ true → is_letter c ≡ true
letter_of_lower c h = ground (arith, h)

abbrev pub ascii : Unicode
ascii = record {
  to_lowercase = lower;
  is_alphanumeric = λ c. is_letter c;
  to_lowercase_lower = lower_of_lower;
  to_lowercase_upper = lower_no_upper;
  is_alphanumeric_lower = letter_of_lower;
}

-- Words between white space.
abbrev pub is_word : Str → Bool
is_word w = not (is_empty w) && not (any (λ c. not (is_letter c)) w)

pub letters_of :
    (w : Str) → any (λ c. not (is_letter c)) w ≡ false → All (λ c. is_letter c ≡ true) w
letters_of [] h = tt
letters_of (c ∷ w) h = ground (arith, h, letters_of w)

pub word_letters : (w : Str) → is_word w ≡ true → (w ≢ []) × All (λ c. is_letter c ≡ true) w
word_letters [] h = absurd (ground (arith, h))
word_letters (c ∷ w) h = (λ e. ground (arith, e), letters_of (c ∷ w) (ground (arith, h)))

abbrev pub spaced : Regex
spaced = record {
  find_words = λ s. keep is_word (split_whitespace s);
  capture_year = λ s. none;
  find_words_letters = λ s w i. word_letters w ((In-keep_iff is_word w (split_whitespace s)).0 i).1;
  find_words_of =
      λ s w c i j. In-split_whitespace s w c ((In-keep_iff is_word w (split_whitespace s)).0 i).0 j;
}

-- Values that nothing is sent of.
abbrev pub unsent : {V : Type 0} → Format Str V
unsent = record {
  key_eq = str_eq;
  to_string = λ k. k;
  parse = λ k. some k;
  to_json = λ v. none;
  from_json = λ s. none;
}

abbrev pub formats : Formats
formats = record {
  books = unsent;
  datalake = unsent;
  index = unsent;
  to_payload = λ p. p.book_id;
  from_payload = λ s. some (record { book_id = s });
  from_payload-to_payload = λ p. refl;
}

abbrev pub setting : Setting assoc
setting = record {
  site = small_site;
  formats = formats;
  wire = down;
  task_wire = record { answer = λ log q. none; random = λ n. n };
  unicode = ascii;
  regex = spaced;
}

abbrev pub empty_app : App assoc
empty_app = record {
  books = record { local_data = assoc.empty; processed_ops = assoc.empty };
  datalake = record { local_data = assoc.empty; processed_ops = assoc.empty };
  index = record { local_data = assoc.empty; processed_ops = assoc.empty };
  tasks = assoc.empty;
  task_log = [];
}

pub small_site-IsAlone : IsAlone assoc small_site
unfolding get_owners owners_among ring sort_ids get_alive_members
small_site-IsAlone p = let e : (p % 1 + 0) % 1 ≡ 0 = omega arith in rw e refl

abbrev pub emma : Str
emma = str "158"

abbrev pub document : RawDocument
document = record { book_id = emma; header = []; body = str "Rust lang"; source_url = [] }

abbrev pub metadata : BookMetadata
metadata = record {
  book_id = emma;
  title = str "Emma";
  author = str "Austen";
  language = str "en";
  year = none;
  word_count = 2;
  unique_words = 2;
}

abbrev pub shelf : {V : Type 0} → V → Store assoc Str V
shelf v = record {
  local_data = assoc.insert assoc.empty 3 (assoc.insert assoc.empty emma v);
  processed_ops = assoc.empty;
}

-- The document and its metadata are stored.
abbrev pub shelved : App assoc
shelved = record empty_app { books = shelf metadata; datalake = shelf document }
