-- ===== src/Kernel/Where.antt =====
-- The flag --delay-loc of exec/kernel/kernel_delay.go.
