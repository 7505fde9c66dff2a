-- ===== src/Tokenizer/Chat/Prompt.antt =====
-- `ChatTemplateGenerator` of src/tokenizer.cpp: what asking for the generation prompt adds.
use prefill_opt.Prelude.{
  ℕ, ◌-◌, ◌≡◌, refl, sym, ap, ◌∙◌, subst, true, false, List, [], ◌∷◌, ◌++◌, length, drop,
  length-append, arith, some, codes,
}
use mathlib.Core.List.{append_assoc, append-nil}
use prefill_opt.Tokenizer.Chat.{
  template_llama2, template_llama3, template_deep_seek3, template_chatml, ChatItem, each, marked,
  assistant, llama3_header, llama3_item, deep_seek3, think, chatml_prompt, chatml_text, chatml_item,
  fill_buffer, generate,
}

drop-append {ℓ} : {A : Type ℓ} (xs ys : List A) → drop (length xs) (xs ++ ys) ≡ ys
drop-append [] ys = refl
drop-append (x ∷ xs) ys = drop-append xs ys

-- A pointer to the last bytes of a text reads these.
drop-suffix : (a b : List ℕ) → drop (length (a ++ b) - length b) (a ++ b) ≡ b
drop-suffix a b = ap (λ n. drop n (a ++ b)) (omega (arith, length-append a b)) ∙ drop-append a b

shown : (a b c : List ℕ) → drop (length (a ++ (b ++ c)) - length c) (a ++ (b ++ c)) ≡ c
shown a b c =
    subst (λ text. drop (length text - length c) text ≡ c) (append_assoc a b c)
      (drop-suffix (a ++ b) c)

-- What ChatML makes of the items one by one without the prompt, with the prompt behind each of them
abbrev pub with_prompts : List ℕ → List ChatItem → List ℕ
with_prompts eos [] = []
with_prompts eos (item ∷ items) =
    (generate eos template_chatml (item ∷ []) false).content
    ++ (codes "<|im_start|>assistant" ++ ((10 ∷ []) ++ with_prompts eos items))

chatml-prompts :
    (eos : List ℕ) (items : List ChatItem) → each (chatml_item true) items ≡ with_prompts eos items
unfolding each chatml_item generate fill_buffer
chatml-prompts eos [] = refl
chatml-prompts eos (item ∷ items) =
    append_assoc (chatml_text item) chatml_prompt (each (chatml_item true) items)
    ∙ ap (λ r. chatml_text item ++ (chatml_prompt ++ r)) (chatml-prompts eos items)
    ∙ rw (append-nil (chatml_text item), append-nil (chatml_text item)) refl

-- What asking for the generation prompt adds to a chat: for llama 2 nothing; for llama 3 and DeepSeek
-- the beginning of the assistant's message, once, behind all items, of which DeepSeek shows "<think>" and
-- a newline; but for ChatML the text of every item, as it is without the prompt, is followed by a prompt
-- of its own, so that none is there if there are no items.
pub prompt_lem :
    (eos : List ℕ) (items : List ChatItem)
    → (generate eos template_llama2 items true ≡ generate eos template_llama2 items false)
      × ((generate eos template_llama3 items true).content
          ≡ (generate eos template_llama3 items false).content
            ++ (codes "<|start_header_id|>assistant<|end_header_id|>" ++ (10 ∷ 10 ∷ [])))
      × ((generate eos template_deep_seek3 items true).content
          ≡ (generate eos template_deep_seek3 items false).content
            ++ (marked (codes "Assistant") ++ (codes "<think>" ++ (10 ∷ []))))
      × ((generate eos template_deep_seek3 items true).public_prompt
          ≡ some (codes "<think>" ++ (10 ∷ [])))
      × ((generate eos template_chatml items true).content ≡ with_prompts eos items)
unfolding generate fill_buffer llama3_header
prompt_lem eos items = (
  refl,
  ap (λ r. r ++ llama3_header assistant) (sym (append-nil (each (llama3_item eos) items))),
  refl,
  ap (λ text. some text) (shown (deep_seek3 items) (marked (codes "Assistant")) think),
  chatml-prompts eos items,
)
