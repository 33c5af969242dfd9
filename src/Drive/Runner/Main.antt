-- ===== src/Drive/Runner/Main.antt =====
-- `main` of drive/test_runner/main.go ends.
use poprocks.Drive.Os.{Os}
use poprocks.Drive.Runner.Ends.{Ends}
