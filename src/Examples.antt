-- ===== src/Examples.antt =====
-- The theorems at work on concrete states of the kernel.
mod Scheduling
mod Memory
mod Console
mod Text
mod Archives
mod Descriptors
mod Programs
mod Devices
mod Tables
mod Directories
mod Hardware
mod Kernel
