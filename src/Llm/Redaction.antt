-- ===== src/Llm/Redaction.antt =====
-- `_redact` of scanner/src/aegify/llm/tools.py over JSON values. The regular expressions are those of
-- Python's `re`, a parameter.
use aegify.Base.{Bool, String, if◌then◌else◌}

mutual
  -- `literal` is a number, a Boolean or null, by its text.
  pub data Json : Type 0 where
    literal : String → Json
    text : String → Json
    array : Items → Json
    object : Members → Json

  pub data Items : Type 0 where
    no_item : Items
    item : Json → Items → Items

  pub data Members : Type 0 where
    no_member : Members
    member : String → Json → Members → Members

-- `_SENSITIVE_KEYS.search(key)`, and the substitutions in a text, one after the other.
pub record Expressions : Type 0 where
  pub is_sensitive_key : String → Bool
  pub substitute : String → String

module _ (expressions : Expressions) where
  open expressions use {is_sensitive_key, substitute}

  unfoldable mutual
    pub redact : Json → Json
    redact (Json.literal l) = Json.literal l
    redact (Json.text s) = Json.text (substitute s)
    redact (Json.array xs) = Json.array (redact_items xs)
    redact (Json.object ms) = Json.object (redact_members ms)

    pub redact_items : Items → Items
    redact_items Items.no_item = Items.no_item
    redact_items (Items.item x xs) = Items.item (redact x) (redact_items xs)

    pub redact_members : Members → Members
    redact_members Members.no_member = Members.no_member
    redact_members (Members.member key x ms) =
        let value = redact x in
        let rest = redact_members ms in
        Members.member key (if is_sensitive_key key then Json.text "[REDACTED]" else value) rest
