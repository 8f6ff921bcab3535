-- ===== src/Framing/Message/Handler.antt =====
-- The handlers of python/src/embedded_bridge/framing/message.py. A handler's callbacks are
-- functions on its state; the class that a user derives is a parameter.
use embedded_bridge.Prelude.{ℕ, List, [], ◌∷◌, ◌++◌, ◌==◌, if◌then◌else◌}
use embedded_bridge.Text.Utf8.{Text}

pub record StreamingMessageHandler (H : Type 0) : Type 0 where
  pub on_text_data : H → Text → H
  pub on_text_end : H → H
  pub on_binary_start : H → ℕ → H
  pub on_binary_data : H → List ℕ → H
  pub on_binary_end : H → H

-- What a subclass of `MessageHandler` overrides.
pub record Callbacks (U : Type 0) : Type 0 where
  pub on_text : U → Text → U
  pub on_binary : U → List ℕ → U

pub record MessageHandler (U : Type 0) : Type 0 where
  pub text_buf : List Text
  pub binary_buf : List ℕ
  pub user : U

-- `"".join`
unfoldable pub join : List Text → Text
join [] = []
join (t ∷ texts) = t ++ join texts

-- `if line.endswith("\r"): line = line[:-1]`
unfoldable pub strip_cr : Text → Text
strip_cr [] = []
strip_cr (c ∷ []) = if c == 0x0D then [] else c ∷ []
strip_cr (c ∷ c' ∷ text) = c ∷ strip_cr (c' ∷ text)

module _ {U : Type 0} where
  unfoldable pub init_handler : U → MessageHandler U
  init_handler u = record { text_buf = []; binary_buf = []; user = u }

  unfoldable pub on_text_end : Callbacks U → MessageHandler U → MessageHandler U
  on_text_end callbacks h = record h {
    text_buf = [];
    user = callbacks.on_text h.user (strip_cr (join h.text_buf));
  }

  unfoldable pub on_binary_end : Callbacks U → MessageHandler U → MessageHandler U
  on_binary_end callbacks h = record h {
    binary_buf = [];
    user = callbacks.on_binary h.user h.binary_buf;
  }

  unfoldable pub message_handler : Callbacks U → StreamingMessageHandler (MessageHandler U)
  message_handler callbacks = record {
    on_text_data = λ h chunk. record h { text_buf = h.text_buf ++ (chunk ∷ []) };
    on_text_end = on_text_end callbacks;
    on_binary_start = λ h _. record h { binary_buf = [] };
    on_binary_data = λ h chunk. record h { binary_buf = h.binary_buf ++ chunk };
    on_binary_end = on_binary_end callbacks;
  }

pub data Message : Type 0 where
  text : Text → Message
  binary : List ℕ → Message

-- `_DrainHandler`, whose `messages` are the user's state.
abbrev pub DrainHandler : Type 0
DrainHandler = MessageHandler (List Message)

unfoldable pub collect : Callbacks (List Message)
collect = record {
  on_text = λ messages line. messages ++ (text line ∷ []);
  on_binary = λ messages payload. messages ++ (binary payload ∷ []);
}

unfoldable pub drain_handler : StreamingMessageHandler DrainHandler
drain_handler = message_handler collect
