-- ===== src/Tokenizer/Chat/Tests.antt =====
-- Chats of two and three messages.
use prefill_opt.Prelude.{
  ℕ, ◌≡◌, refl, false, true, List, [], ◌∷◌, ◌++◌, some, none, ok, err, codes, contains, same_text,
}
use prefill_opt.Tokenizer.Chat.{
  template_unknown, template_llama2, template_llama3, template_deep_seek3, template_chatml,
  ChatItem, no_chat_template, template_of, detect_template, each, marked, system, user, chatml_turn,
  chatml_prompt, chatml_text, chatml_item, fill_buffer, generate,
}
use prefill_opt.Tokenizer.Chat.Prompt.{with_prompts, prompt_lem}

abbrev item : List ℕ → List ℕ → ChatItem
item role message = record { role = role; message = message }

abbrev asked : List ChatItem
asked = item system (codes "Be brief.") ∷ item user (codes "Hi") ∷ []

abbrev eos : List ℕ
eos = codes "</s>"

llama3_text :
    template_of template_unknown (some (codes "x<|start_header_id|>y")) ≡ ok template_llama3
unfolding template_of detect_template contains
llama3_text = refl

no_text : template_of template_unknown none ≡ err no_chat_template
unfolding template_of
no_text = refl

-- The prompt stands behind the system message too.
prompt_twice :
    (generate eos template_chatml asked true).content
    ≡ chatml_turn system (codes "Be brief.")
      ++ (chatml_prompt ++ (chatml_turn user (codes "Hi") ++ chatml_prompt))
unfolding generate fill_buffer each chatml_item chatml_text chatml_turn same_text
prompt_twice = refl

prompt_lem_example :
    (generate eos template_llama2 asked true ≡ generate eos template_llama2 asked false)
    × ((generate eos template_llama3 asked true).content
        ≡ (generate eos template_llama3 asked false).content
          ++ (codes "<|start_header_id|>assistant<|end_header_id|>" ++ (10 ∷ 10 ∷ [])))
    × ((generate eos template_deep_seek3 asked true).content
        ≡ (generate eos template_deep_seek3 asked false).content
          ++ (marked (codes "Assistant") ++ (codes "<think>" ++ (10 ∷ []))))
    × ((generate eos template_deep_seek3 asked true).public_prompt
        ≡ some (codes "<think>" ++ (10 ∷ [])))
    × ((generate eos template_chatml asked true).content ≡ with_prompts eos asked)
prompt_lem_example = prompt_lem eos asked
