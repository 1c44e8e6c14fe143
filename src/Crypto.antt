-- ===== src/Crypto.antt =====
-- internal/crypto: random tokens. `rune_sequence` is randx.RuneSequence of github.com/ory/x.
use identity_api.Common.{ℕ, String}
use identity_api.Exec.{Exec, pure, ◌>>=◌}

-- randx.AlphaNum
abbrev pub secret_char_set : String
secret_char_set = "abcdefghijklmnopqrstuvwxyzABCDEFGHIJKLMNOPQRSTUVWXYZ0123456789"

module _ {W : Type 0} (rune_sequence : ℕ → String → Exec W String) where
  unfoldable pub generate_secure_token : ℕ → Exec W String
  generate_secure_token length = do secret ← rune_sequence length secret_char_set; pure secret
