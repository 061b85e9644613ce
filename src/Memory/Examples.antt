-- ===== src/Memory/Examples.antt =====
-- A search in a few memories.
use altclaw.Common.{true, false, [], ◌∷◌, Bytes, codes, text_eq, ◌≡◌, refl}
use altclaw.Memory.{Memory, is_low, is_nil, tokenize, is_left_out, merge_entries}
use altclaw.Memory.Overlap.{is_left_out_comm}

abbrev memory : Bytes → Memory
memory text = record { id = 1; kind = codes "core"; content = text; age = codes "1d" }

abbrev same_text : Bytes → Bytes
same_text s = s

words : tokenize same_text (codes "go go, a test-1 go") ≡ codes "go" ∷ codes "test" ∷ []
unfolding tokenize text_eq
words = refl

-- One word of two is enough, and none is not.
found :
    merge_entries same_text
      (codes "w")
      (codes "go test")
      (memory (codes "go there") ∷ [])
      (memory (codes "elsewhere") ∷ [])
    ≡ (memory (codes "go there"), false) ∷ []
unfolding merge_entries tokenize is_low text_eq
found = refl

-- A query without a word of two letters finds everything.
all_found :
    merge_entries same_text [] (codes "a b c") [] (memory (codes "elsewhere") ∷ [])
    ≡ (memory (codes "elsewhere"), true) ∷ []
unfolding merge_entries tokenize is_low text_eq
all_found = refl

is_left_out_comm_example :
    is_left_out same_text (tokenize same_text (codes "go test")) (memory (codes "elsewhere"))
    ≡ is_left_out same_text (tokenize same_text (codes "elsewhere")) (memory (codes "go test"))
unfolding tokenize text_eq
is_left_out_comm_example =
    is_left_out_comm same_text (memory (codes "go test")) (memory (codes "elsewhere")) go_words
      other_words
  where
    go_words : is_nil (tokenize same_text (codes "go test")) ≡ false
    go_words = refl

    other_words : is_nil (tokenize same_text (codes "elsewhere")) ≡ false
    other_words = refl
