-- ===== src/Tokenizer/Chat.antt =====
-- `ChatTemplateGenerator` of src/tokenizer.cpp: the prompt of a chat. A text is a list of bytes.
pub mod Prompt
mod Tests
use prefill_opt.Prelude.{
  ℕ, zero, suc, ◌-◌, Bool, true, false, ◌&&◌, Result, ok, err, List, [], ◌∷◌, ◌++◌, length, drop,
  Option, some, none, if◌then◌else◌, contains, same_text, codes,
}

-- `ChatTemplateType`
pub data ChatTemplateType : Type 0 where
  template_unknown template_llama2 template_llama3 template_deep_seek3 template_chatml :
      ChatTemplateType

-- `ChatItem`
pub record ChatItem : Type 0 where
  pub role : List ℕ
  pub message : List ℕ

-- `GeneratedChat`; the public prompt points into the content, and reads to its end.
pub record GeneratedChat : Type 0 where
  pub content : List ℕ
  pub public_prompt : Option (List ℕ)

pub data ChatError : Type 0 where
  no_chat_template not_supported : ChatError

abbrev pub newline : List ℕ
newline = 10 ∷ []

-- "｜", which is not ASCII
abbrev pub wide_bar : List ℕ
wide_bar = 0xef ∷ 0xbd ∷ 0x9c ∷ []

abbrev pub marked : List ℕ → List ℕ
marked word = codes "<" ++ (wide_bar ++ (word ++ (wide_bar ++ codes ">")))

unfoldable pub detect_template : List ℕ → Result ChatError ChatTemplateType
detect_template text =
    if contains (codes "[INST]") text
    then ok template_llama2
    else if contains (codes "<|start_header_id|>") text
    then ok template_llama3
    else if contains (marked (codes "Assistant")) text
    then ok template_deep_seek3
    else if contains (codes "<|im_start|>") text
    then ok template_chatml
    else err not_supported

-- The constructor: which template there is.
unfoldable pub template_of : ChatTemplateType → Option (List ℕ) → Result ChatError ChatTemplateType
template_of template_unknown none = err no_chat_template
template_of template_unknown (some text) = detect_template text
template_of given text = ok given

-- The loop over the items: what each appends to the buffer.
unfoldable pub each : (ChatItem → List ℕ) → List ChatItem → List ℕ
each render [] = []
each render (item ∷ items) = render item ++ each render items

abbrev pub system : List ℕ
system = codes "system"

abbrev pub user : List ℕ
user = codes "user"

abbrev pub assistant : List ℕ
assistant = codes "assistant"

unfoldable pub llama3_header : List ℕ → List ℕ
llama3_header role =
    codes "<|start_header_id|>" ++ (role ++ (codes "<|end_header_id|>" ++ (newline ++ newline)))

module _ (eos : List ℕ) where
  unfoldable pub llama2_item : ChatItem → List ℕ
  llama2_item item =
      if same_text item.role assistant
      then item.message ++ eos
      else if same_text item.role user
      then codes "[INST] " ++ (item.message ++ (codes " [/INST]" ++ eos))
      else []

  unfoldable pub llama2_system : ChatItem → ChatItem → List ℕ
  llama2_system first second =
      codes "[INST] <<SYS>>"
      ++ (newline
          ++ (first.message
              ++ (newline
                  ++ (codes "<</SYS>>"
                      ++ (newline ++ (newline ++ (second.message ++ (codes " [/INST]" ++ eos))))))))

  -- A first system message goes into the first message of the user.
  unfoldable pub llama2 : List ChatItem → List ℕ
  llama2 (first ∷ second ∷ items) =
      if same_text first.role system && same_text second.role user
      then llama2_system first second ++ each llama2_item items
      else each llama2_item (first ∷ second ∷ items)
  llama2 items = each llama2_item items

  unfoldable pub llama3_item : ChatItem → List ℕ
  llama3_item item = llama3_header item.role ++ (item.message ++ eos)

unfoldable pub deep_seek3_item : ChatItem → List ℕ
deep_seek3_item item =
    if same_text item.role user
    then marked (codes "User") ++ item.message
    else if same_text item.role assistant
    then marked (codes "Assistant") ++ item.message
    else []

unfoldable pub deep_seek3 : List ChatItem → List ℕ
deep_seek3 [] = []
deep_seek3 (first ∷ items) =
    if same_text first.role system
    then first.message ++ each deep_seek3_item items
    else each deep_seek3_item (first ∷ items)

abbrev pub think : List ℕ
think = codes "<think>" ++ newline

unfoldable pub chatml_turn : List ℕ → List ℕ → List ℕ
chatml_turn role message =
    codes "<|im_start|>" ++ (role ++ (newline ++ (message ++ (codes "<|im_end|>" ++ newline))))

abbrev pub chatml_prompt : List ℕ
chatml_prompt = codes "<|im_start|>assistant" ++ newline

unfoldable pub chatml_text : ChatItem → List ℕ
chatml_text item =
    if same_text item.role system
    then chatml_turn system item.message
    else if same_text item.role user
    then chatml_turn user item.message
    else if same_text item.role assistant
    then chatml_turn assistant item.message
    else []

-- A turn of the loop, with the generation prompt behind every item, as the code has it.
unfoldable pub chatml_item : Bool → ChatItem → List ℕ
chatml_item append_generation_prompt item =
    chatml_text item ++ (if append_generation_prompt then chatml_prompt else [])

-- The buffer, and the size of the public prompt
unfoldable pub fill_buffer : List ℕ → ChatTemplateType → List ChatItem → Bool → List ℕ × ℕ
fill_buffer eos template_unknown items append_generation_prompt = ([], 0)
fill_buffer eos template_llama2 items append_generation_prompt = (llama2 eos items, 0)
fill_buffer eos template_llama3 items append_generation_prompt = (
  each (llama3_item eos) items
      ++ (if append_generation_prompt then llama3_header assistant else []),
  0,
)
fill_buffer eos template_deep_seek3 items append_generation_prompt =
    if append_generation_prompt
    then (deep_seek3 items ++ (marked (codes "Assistant") ++ think), 8)
    else (deep_seek3 items, 0)
fill_buffer eos template_chatml items append_generation_prompt =
    (each (chatml_item append_generation_prompt) items, 0)

abbrev pub pointed : List ℕ × ℕ → GeneratedChat
pointed (content, zero) = record { content = content; public_prompt = none }
pointed (content, suc size) = record {
  content = content;
  public_prompt = some (drop (length content - suc size) content);
}

unfoldable pub generate : List ℕ → ChatTemplateType → List ChatItem → Bool → GeneratedChat
generate eos type items append_generation_prompt =
    pointed (fill_buffer eos type items append_generation_prompt)
