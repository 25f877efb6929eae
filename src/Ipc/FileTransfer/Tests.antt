-- ===== src/Ipc/FileTransfer/Tests.antt =====
-- A file of two bytes is sent and printed.
use os_modules.Prelude.{ℕ, ◌≡◌, some, List, [], ◌∷◌}
use os_modules.Prelude.Result.{ok}
use os_modules.Ipc.FileTransfer.{send_file, transfer}
use os_modules.Ipc.FileTransfer.Whole.{transfer-text}

abbrev hi : List ℕ
hi = b'h' ∷ b'i' ∷ []

transfer-text_example : (send_file hi ≡ ok (hi ∷ [])) × (transfer hi ≡ ok (some hi))
transfer-text_example = transfer-text hi ((λ e. cc), ((λ e. cc), tt))
